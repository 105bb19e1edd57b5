-- ===== src/SharedMemory/Message.antt =====
-- shm/A.cc and shm/B.cc: the message, and how the two programs end.
use study_code.Prelude.{
  ℕ, suc, ◌≤◌, Option-cases, inl, inr, ◌≡◌, Option, none, some, List, [], ◌∷◌, length,
  if◌then◌else◌, arith,
}
use study_code.Prelude.Int.{ℤ, pos, negsuc}
use study_code.Text.{Text, utf8, c_string}
use study_code.SharedMemory.{Call, exits, Answers, fails, shm_size, message, a_main, b_main, b_ends}

-- What a program passes to `exit`.
abbrev pub status_of : List Call → Option ℤ
status_of [] = none
status_of (exits status ∷ calls) = some status
status_of (_ ∷ calls) = status_of calls

-- The number of the first of the calls that failed, from `n` on, as a status; 0 where none failed.
abbrev pub first_failed : ℕ → List ℤ → ℤ
first_failed n [] = pos 0
first_failed n (ret ∷ rets) = if fails ret then negsuc n else first_failed (suc n) rets

a_main-status :
    (a : Answers) (segment : List ℕ)
    → shm_size ≤ length segment
    → (r : List ℕ × List Call) × (a_main a segment ≡ some r)
      × (status_of r.1
          ≡ some (first_failed 0 (a.ftok_ret ∷ a.shmget_ret ∷ a.shmat_ret ∷ a.shmdt_ret ∷ [])))
unfolding a_main message utf8
a_main-status a segment h = elim (Option-cases (a_main a segment)) [
  | inl n ↦ absurd (ground (arith, n, h))
  | inr (r, e) ↦ (r, e, ground (arith, e))
]

-- Both programs return, A over a segment of at least the size that it asks for and B over one with
-- a NUL, and each exits with 0 where none of its calls fails, and else with the negated number,
-- counted from 1, of the first that fails.
pub main-status :
    (a b : Answers) (for_a for_b : List ℕ) (seen : Text)
    → shm_size ≤ length for_a
    → c_string for_b ≡ some seen
    → ((r : List ℕ × List Call) × (a_main a for_a ≡ some r)
        × (status_of r.1
            ≡ some (first_failed 0 (a.ftok_ret ∷ a.shmget_ret ∷ a.shmat_ret ∷ a.shmdt_ret ∷ []))))
      × ((calls : List Call) × (b_main b for_b ≡ some calls)
          × (status_of calls
              ≡ some (
                  first_failed 0
                    (b.ftok_ret ∷ b.shmget_ret ∷ b.shmat_ret ∷ b.shmdt_ret ∷ b.shmctl_ret ∷ []))))
unfolding b_main b_ends
main-status a b for_a for_b seen h e = (
  a_main-status a for_a h,
  elim (Option-cases (b_main b for_b)) [
    | inl n ↦ absurd (ground (arith, n, e))
    | inr (calls, f) ↦ (calls, f, ground (arith, f, e))
  ],
)
