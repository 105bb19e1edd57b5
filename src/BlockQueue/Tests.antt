-- ===== src/BlockQueue/Tests.antt =====
-- The bounded queue at concrete states.
use study_code.Prelude.{
  ◌≢◌, ◌≤◌, length, get_elem?, ℕ, ◌≡◌, refl, some, none, List, [], ◌∷◌, ◌++◌, arith,
}
use study_code.BlockQueue.{
  BlockQueue, Effect, waits_consumer, signals_consumer, takes, Step, enqueues, pops, consumer_wakes,
  run,
}
use study_code.BlockQueue.Fifo.{taken, put_all, run-put_all}
use study_code.Text.{utf8}
use study_code.Text.Decimal.{to_string, decimal}
use study_code.BlockQueue.Main.{Role, consumer, productor, thread_name, names}
use study_code.BlockQueue.Main.Names.{names-distinct}
use study_code.BlockQueue.Wakeups.{run_stolen}

abbrev empty : BlockQueue ℕ
empty = record { dp = []; cap = 5; sleep_productor_num = 0; sleep_consumer_num = 0 }

abbrev steps : List (Step ℕ)
steps = pops ∷ enqueues 4 ∷ enqueues 6 ∷ consumer_wakes ∷ []

abbrev outcome : BlockQueue ℕ × List (Effect ℕ)
outcome = (
  record empty { dp = 6 ∷ [] },
  waits_consumer ∷ signals_consumer ∷ signals_consumer ∷ takes 4 ∷ [],
)

run-steps : run steps empty ≡ some outcome
unfolding run
run-steps = refl

run-put_all_example : empty.dp ++ put_all steps empty ≡ taken outcome.1 ++ outcome.0.dp
run-put_all_example = run-put_all steps empty outcome run-steps

run_stolen_example : run (pops ∷ enqueues 4 ∷ pops ∷ consumer_wakes ∷ []) empty ≡ none
run_stolen_example = run_stolen empty 4 refl (omega arith)

-- The five threads of `main`, the first producer before the second consumer.
abbrev roles : List Role
roles = consumer ∷ productor ∷ consumer ∷ productor ∷ productor ∷ []

names-run :
    (get_elem? (names roles 0) 0 ≡ some (utf8 "Consumer-0"))
    × (get_elem? (names roles 0) 3 ≡ some (utf8 "Productor-3"))
unfolding names thread_name utf8 to_string decimal
names-run = (refl, refl)

names-distinct_example :
    (utf8 "Consumer-0" ≢ utf8 "Productor-3") × (length (utf8 "Consumer-0") ≤ 15)
names-distinct_example =
    names-distinct roles 0 3 (utf8 "Consumer-0") (utf8 "Productor-3") (omega arith) names-run.0
      names-run.1 (λ e. absurd (omega arith))
