-- ===== src/ThreadPool/Tests.antt =====
-- The pool at concrete steps.
use study_code.Prelude.Int.{◌+ℤ◌}
use study_code.Text.Decimal.{to_string, decimal}
use study_code.Prelude.{
  replicate, ◌++◌, ℕ, zero, suc, ◌+◌, ◌≤◌, ◌≡◌, refl, false, none, some, List, [], ◌∷◌, map, arith,
}
use study_code.ThreadPool.{
  Effect, waits, leaves, takes, signals, broadcasts, new_pool, start, stop, enqueue, handler_task,
  handler_wakes,
}
use study_code.ThreadPool.Tasks.{taken}
use study_code.ThreadPool.Workers
use study_code.ThreadPool.Workers.{
  Act, goes, enqueues, stops, Workers, Place, ready, woken, left, act, started,
}
use study_code.ThreadPool.Workers.Counts.{tally, is_left}
use study_code.ThreadPool.Workers.Drain.{all_taken_at_rest}
use study_code.ThreadPool.Main.{
  Task, new_task, call, result_text, handle, handle_all, main_task, main_tasks, main_calls,
  default_num, calls_of,
}
use study_code.ThreadPool.Main.Whole.{line_of, main_done}
use study_code.Prelude.{length}
use study_code.ThreadPool.Workers.Ends.{work_left}
use study_code.ThreadPool.Workers.Rest.{AtRest, run-rests}

-- Two workers: one sleeps before the first task comes, which wakes it, and the other takes the second
-- task behind the stop, as the broadcast wakes it in its turn.
abbrev acts : List (Act ℕ)
acts =
    goes 0
    ∷ goes 1
    ∷ enqueues 7 0
    ∷ goes 0
    ∷ goes 0
    ∷ enqueues 8 5
    ∷ stops
    ∷ goes 1
    ∷ goes 0
    ∷ goes 1
    ∷ []

abbrev at_rest : Workers ℕ
at_rest = record {
  pool = record { is_running = false; slaver_num = 2; tasks = []; slavers_sleep_count = 0 };
  places = left ∷ left ∷ [];
}

abbrev effects : List (Effect ℕ)
effects =
    waits
    ∷ waits
    ∷ signals
    ∷ takes 7
    ∷ waits
    ∷ signals
    ∷ broadcasts
    ∷ takes 8
    ∷ leaves
    ∷ leaves
    ∷ []

acts-run : Workers.run acts (started 2) ≡ some (at_rest, effects)
unfolding Workers.run act started start new_pool handler_task handler_wakes enqueue stop
acts-run = refl

nobody_goes : (i : ℕ) → act (goes i) at_rest ≡ none
unfolding act
nobody_goes zero = refl
nobody_goes (suc zero) = refl
nobody_goes (suc (suc i)) = refl

all_taken_at_rest_example :
    (taken effects ≡ 7 ∷ 8 ∷ []) × (at_rest.pool.tasks ≡ []) × (tally is_left at_rest.places ≡ 2)
all_taken_at_rest_example =
    all_taken_at_rest 2 acts at_rest effects (omega arith) (refl, (refl, tt)) acts-run nobody_goes

abbrev laden : Workers ℕ
laden = record {
  pool = record { is_running = false; slaver_num = 2; tasks = 7 ∷ 8 ∷ []; slavers_sleep_count = 1 };
  places = ready ∷ woken ∷ [];
}

run-rests_example :
    ((is : List ℕ) (r : Workers ℕ × List (Effect ℕ))
      → Workers.run (map goes is) laden ≡ some r
      → length is + work_left r.0 ≤ work_left laden)
    × ((is : List ℕ) × (r : Workers ℕ × List (Effect ℕ)) × (Workers.run (map goes is) laden
          ≡ some r)
        × AtRest r.0)
run-rests_example = run-rests laden

-- `main` enqueues its tasks before any worker has the mutex; then the first one takes them all.
abbrev counting : ℕ → ℕ
counting k = k

abbrev main_acts : List (Act Task)
main_acts =
    map (λ task. enqueues task 0) (main_tasks counting 10 0)
    ++ (stops ∷ (map (λ k. goes 0) (main_tasks counting 10 0)) ++ map goes (0 ∷ 1 ∷ 2 ∷ 3 ∷ 4 ∷ []))

abbrev main_rest : Workers Task
main_rest = record {
  pool = record { is_running = false; slaver_num = 5; tasks = []; slavers_sleep_count = 0 };
  places = left ∷ left ∷ left ∷ left ∷ left ∷ [];
}

abbrev main_effects : List (Effect Task)
main_effects = map takes (main_tasks counting 10 0) ++ replicate 5 leaves

main_run : Workers.run main_acts (started default_num) ≡ some (main_rest, main_effects)
unfolding Workers.run act started start new_pool handler_task enqueue stop main_tasks
main_run = refl

nobody_goes_on : (i : ℕ) → act (goes i) main_rest ≡ none
unfolding act
nobody_goes_on zero = refl
nobody_goes_on (suc zero) = refl
nobody_goes_on (suc (suc zero)) = refl
nobody_goes_on (suc (suc (suc zero))) = refl
nobody_goes_on (suc (suc (suc (suc zero)))) = refl
nobody_goes_on (suc (suc (suc (suc (suc i))))) = refl

main_calls-run : calls_of main_acts ≡ main_calls counting
unfolding main_tasks main_calls
main_calls-run = refl

main_done_example :
    (taken main_effects ≡ main_tasks counting 10 0)
    × (handle_all (taken main_effects) ≡ some (map line_of (main_tasks counting 10 0)))
    × (tally is_left main_rest.places ≡ default_num)
main_done_example =
    main_done counting main_acts main_rest main_effects main_calls-run main_run nobody_goes_on

first_line : handle (main_task counting 1) ≡ some (b'3' ∷ b'+' ∷ b'3' ∷ b'=' ∷ b'6' ∷ [])
unfolding handle call result_text main_task new_task ◌+ℤ◌ to_string decimal
first_line = refl
