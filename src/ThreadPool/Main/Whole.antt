-- ===== src/ThreadPool/Main/Whole.antt =====
-- thread5/Main.cc with its pool: every task is done, and the program ends.
use study_code.Prelude.{
  ℕ, zero, suc, ◌+◌, ◌*◌, ◌%◌, ◌^◌, ◌<◌, ◌≡◌, refl, ap, ◌∙◌, subst, true, false, none, some, List,
  [], ◌∷◌, ◌++◌, map, arith, if◌then◌else◌,
}
use study_code.Prelude.Int.{pos, ◌+ℤ◌}
use study_code.Text.{Text}
use study_code.Text.Decimal.{to_string}
use study_code.ThreadPool.{Effect}
use study_code.ThreadPool.Tasks.{taken}
use study_code.ThreadPool.Workers.{Workers, Act, goes, wakes, enqueues, stops, act, started, run}
use study_code.ThreadPool.Workers.Counts.{tally, is_left, waits_there}
use study_code.ThreadPool.Workers.Taken.{enqueued, Orderly, running_at_end}
use study_code.ThreadPool.Workers.Drain.{all_taken_at_rest}
use study_code.ThreadPool.Main.{
  Task, enqueue_task, stop_pool, new_task, call, result_text, handle, handle_all, main_task,
  main_tasks, main_calls, default_num, calls_of, fits_int,
}

-- Calls that enqueue `tasks` and stop.
stopped-quiet :
    (as' : List (Act Task))
    → calls_of as' ≡ []
    → (enqueued as' ≡ []) × Orderly false as' × (running_at_end false as' ≡ false)
stopped-quiet [] e = (refl, tt, refl)
stopped-quiet (goes i ∷ as') e = stopped-quiet as' e
stopped-quiet (wakes i ∷ as') e = stopped-quiet as' e
stopped-quiet (enqueues task who ∷ as') e = absurd (cc e)
stopped-quiet (stops ∷ as') e = absurd (cc e)

calls-Orderly :
    (tasks : List Task) (as' : List (Act Task))
    → calls_of as' ≡ map enqueue_task tasks ++ (stop_pool ∷ [])
    → (enqueued as' ≡ tasks) × Orderly true as' × (running_at_end true as' ≡ false)
calls-Orderly [] [] e = absurd (cc e)
calls-Orderly (task ∷ tasks) [] e = absurd (cc e)
calls-Orderly tasks (goes i ∷ as') e = calls-Orderly tasks as' e
calls-Orderly tasks (wakes i ∷ as') e = calls-Orderly tasks as' e
calls-Orderly [] (stops ∷ as') e = stopped-quiet as' (cc e)
calls-Orderly (task ∷ tasks) (stops ∷ as') e = absurd (cc e)
calls-Orderly [] (enqueues task' who ∷ as') e = absurd (cc e)
calls-Orderly (task ∷ tasks) (enqueues task' who ∷ as') e =
    let (same, orderly, ends) = calls-Orderly tasks as' (cc e) in
    (cc (e, same), (refl, orderly), ends)

fits_sum : (a b : ℕ) → a + b < 2 ^ 31 → fits_int (pos a +ℤ pos b) ≡ true
unfolding ◌+ℤ◌
fits_sum a b h = ground arith

-- The line with the sum of a task.
abbrev pub line_of : Task → Text
line_of task =
    to_string task.x ++ (b'+' ∷ to_string task.y) ++ (b'=' ∷ to_string (task.x +ℤ task.y))

handle-new_task :
    (a b : ℕ)
    → a + b < 2 ^ 31
    → handle (new_task (pos a) (pos b)) ≡ some (line_of (new_task (pos a) (pos b)))
unfolding handle call result_text new_task
handle-new_task a b h = rw (fits_sum a b h) refl

module _ (rand : ℕ → ℕ) where
  handle-main_task : (k : ℕ) → handle (main_task rand k) ≡ some (line_of (main_task rand k))
  unfolding main_task
  handle-main_task k = handle-new_task (rand (k * 2) % 10 + 1) (rand (k * 2 + 1) % 20) (omega arith)

  handle_all-main_tasks :
      (cnt k : ℕ) → handle_all (main_tasks rand cnt k) ≡ some (map line_of (main_tasks rand cnt k))
  unfolding handle_all main_tasks
  handle_all-main_tasks zero k = refl
  handle_all-main_tasks (suc cnt) k =
      rw (handle-main_task k) (rw (handle_all-main_tasks cnt (suc k)) refl)

  -- Whatever `rand` returns and however the workers' steps and the calls of `main` mix, when no
  -- worker can take a step all ten tasks of `main` were taken, in order, each of them logs its two
  -- numbers and their sum, which does not overflow, and all five workers have left.
  pub main_done :
      (as' : List (Act Task)) (w : Workers Task) (es : List (Effect Task))
      → calls_of as' ≡ main_calls rand
      → run as' (started default_num) ≡ some (w, es)
      → ((i : ℕ) → act (goes i) w ≡ none)
      → (taken es ≡ main_tasks rand 10 0)
        × (handle_all (taken es) ≡ some (map line_of (main_tasks rand 10 0)))
        × (tally is_left w.places ≡ default_num)
  unfolding main_calls
  main_done as' w es c e stuck =
      let (given, orderly, ends) = calls-Orderly (main_tasks rand 10 0) as' c in
      let (all, _, places) = all_taken_at_rest default_num as' w es (omega arith) orderly e stuck in
      let same = all ∙ given in
      (
        same,
        ap handle_all same ∙ handle_all-main_tasks 10 0,
        subst
            (λ b. (if b then tally waits_there w.places else tally is_left w.places) ≡ default_num)
            ends places,
      )
