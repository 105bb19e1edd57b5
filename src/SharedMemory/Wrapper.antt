-- ===== src/SharedMemory/Wrapper.antt =====
-- 11_18/Shm.hpp: how a sequence of members can end.
use study_code.Prelude.{◌≡◌, refl, Bool, true, false, List, [], ◌∷◌, ◌&&◌, Bool-cases, inl, inr}
use study_code.Prelude.Int.{ℤ, pos, is_negative}
use study_code.Sys.{same_fd}
use study_code.SharedMemory.{
  Call, ftok, shmget_create, shmget_exclusive, shmget_find, shmat, shmdt, shmctl_stat,
  shmctl_remove, prints, exits, fails, Shm, Op, creates, gets, attaches, asks, deletes, step, run,
}

abbrev is_last : List Call → Bool
is_last [] = true
is_last (call ∷ calls) = false

-- Nothing follows an `exits`, its status tells the call before it (`expected` is that of the call before the
-- list), and the segment is never removed.
abbrev pub well_ended : ℤ → List Call → Bool
well_ended expected [] = true
well_ended expected (exits status ∷ calls) = same_fd status expected && is_last calls
well_ended expected (ftok path id ∷ calls) = well_ended (pos 1) calls
well_ended expected (shmget_exclusive key size ∷ calls) = well_ended (pos 2) calls
well_ended expected (shmat id ∷ calls) = well_ended (pos 3) calls
well_ended expected (shmctl_stat id ∷ calls) = well_ended (pos 4) calls
well_ended expected (shmdt id ∷ calls) = well_ended (pos 0) calls
well_ended expected (shmget_create key size ∷ calls) = false
well_ended expected (shmget_find key size ∷ calls) = false
well_ended expected (shmctl_remove id ∷ calls) = false
well_ended expected (prints s ∷ calls) = false

pub run-well_ended :
    (ops : List Op) (s : Shm) (expected : ℤ) → well_ended expected (run ops s) ≡ true
unfolding run step
run-well_ended [] s expected = refl
run-well_ended (creates ftok_ret shmget_ret ∷ ops) s expected =
    elim (Bool-cases (is_negative ftok_ret)) [
      | inl no_key ↦ rw no_key refl
      | inr key ↦ elim (Bool-cases (is_negative shmget_ret)) [
        | inl refused ↦ rw key (rw refused refl)
        | inr given ↦
            rw key (rw given (run-well_ended ops (record s { shmid = shmget_ret }) (pos 2)))
      ]
    ]
run-well_ended (gets ftok_ret shmget_ret ∷ ops) s expected =
    elim (Bool-cases (is_negative ftok_ret)) [
      | inl no_key ↦ rw no_key refl
      | inr key ↦ rw key (run-well_ended ops (record s { shmid = shmget_ret }) (pos 2))
    ]
run-well_ended (attaches shmat_ret ∷ ops) s expected = elim (Bool-cases (fails shmat_ret)) [
  | inl refused ↦ rw refused refl
  | inr given ↦ rw given (run-well_ended ops (record s { start_addr = shmat_ret }) (pos 3))
]
run-well_ended (asks shmctl_ret ∷ ops) s expected = elim (Bool-cases (is_negative shmctl_ret)) [
  | inl refused ↦ rw refused refl
  | inr given ↦ rw given (run-well_ended ops s (pos 4))
]
run-well_ended (deletes shmdt_ret ∷ ops) s expected = run-well_ended ops s (pos 0)
