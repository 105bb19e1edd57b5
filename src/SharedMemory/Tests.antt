-- ===== src/SharedMemory/Tests.antt =====
-- The two programs and the wrapper at concrete answers.
use study_code.Prelude.{◌≡◌, refl, some, List, [], ◌∷◌, ℕ, replicate, arith}
use study_code.Prelude.Int.{pos, minus_one}
use study_code.Text.{c_string}
use study_code.SharedMemory.{Call, Answers, a_main, b_main}
use study_code.SharedMemory.Message.{status_of, first_failed, main-status}

abbrev fine : Answers
fine = record {
  ftok_ret = pos 97;
  shmget_ret = pos 5;
  shmat_ret = pos 4096;
  shmdt_ret = pos 0;
  shmctl_ret = minus_one;
}

abbrev segment : List ℕ
segment = replicate 1024 1

main-status_example :
    ((r : List ℕ × List Call) × (a_main fine segment ≡ some r)
      × (status_of r.1 ≡ some (first_failed 0 (pos 97 ∷ pos 5 ∷ pos 4096 ∷ pos 0 ∷ []))))
    × ((calls : List Call) × (b_main fine (b'x' ∷ 0 ∷ []) ≡ some calls)
        × (status_of calls
            ≡ some (first_failed 0 (pos 97 ∷ pos 5 ∷ pos 4096 ∷ pos 0 ∷ minus_one ∷ []))))
unfolding c_string
main-status_example = main-status fine fine segment (b'x' ∷ 0 ∷ []) (b'x' ∷ []) (omega arith) refl
