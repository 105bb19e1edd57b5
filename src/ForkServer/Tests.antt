-- ===== src/ForkServer/Tests.antt =====
-- The forking server at concrete rounds.
use study_code.Prelude.{◌+◌, ◌≡◌, refl, [], ◌∷◌, if◌then◌else◌}
use study_code.Prelude.Int.{pos, minus_one}
use study_code.Sys.{count_close, same_fd}
use study_code.ForkServer.{Round, run}
use study_code.ForkServer.Closings.{forked, failures, run-count_close}

abbrev served : Round
served = record { conn_fd = pos 4; pid = pos 100; valread = pos 5 }

abbrev failed : Round
failed = record { conn_fd = pos 5; pid = minus_one; valread = pos 0 }

run-count_close_example :
    count_close (pos 5) (run (pos 3) (served ∷ failed ∷ []))
    ≡ forked (served ∷ failed ∷ []) (pos 5)
      + (if same_fd (pos 5) (pos 3) then failures (served ∷ failed ∷ []) else 0)
run-count_close_example = run-count_close (pos 3) (served ∷ failed ∷ []) (pos 5) (refl, (refl, tt))
