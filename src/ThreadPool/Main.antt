-- ===== src/ThreadPool/Main.antt =====
-- thread5/Main.cc: the task, and the program that gives the pool ten of them.
pub mod Whole
use study_code.Prelude.{
  ◌>>=◌, ℕ, zero, suc, ◌+◌, ◌*◌, ◌%◌, ◌^◌, Bool, Option, none, some, List, [], ◌∷◌, ◌++◌, map, ltb,
  if◌then◌else◌,
}
use study_code.Prelude.Int.{ℤ, pos, negsuc, ◌+ℤ◌}
use study_code.Text.{Text}
use study_code.Text.Decimal.{to_string}
use study_code.ThreadPool.Workers.{Act, goes, wakes, enqueues, stops}

-- `_result` is `none` before the call.
pub record Task : Type 0 where
  pub x : ℤ
  pub y : ℤ
  pub result : Option ℤ

unfoldable pub new_task : ℤ → ℤ → Task
new_task x y = record { x = x; y = y; result = none }

abbrev pub fits_int : ℤ → Bool
fits_int (pos n) = ltb n (2 ^ 31)
fits_int (negsuc n) = ltb n (2 ^ 31)

-- `operator()`; `none` is an overflow, which is undefined.
unfoldable pub call : Task → Option Task
call task =
    let sum = task.x +ℤ task.y in
    if fits_int sum then some (record task { result = some sum }) else none

-- `Result()`; `none` reads a member that nothing was written to.
unfoldable pub result_text : Task → Option Text
result_text task = do
  sum ← task.result
  some (to_string task.x ++ (b'+' ∷ to_string task.y) ++ (b'=' ∷ to_string sum))

-- What a worker does with a task that it took: the line that it logs.
unfoldable pub handle : Task → Option Text
unfolding call result_text
handle task = do called ← call task; result_text called

-- The lines of several tasks.
unfoldable pub handle_all : List Task → Option (List Text)
unfolding handle
handle_all [] = some []
handle_all (task ∷ tasks) = do line ← handle task; lines ← handle_all tasks; some (line ∷ lines)

-- The calls of `main` on the pool behind `Start`.
pub data Call : Type 0 where
  enqueue_task : (task : Task) → Call
  stop_pool : Call

-- What `rand` returns at its successive calls.
module _ (rand : ℕ → ℕ) where
  -- The task of a round, which is the `k`-th.
  unfoldable pub main_task : ℕ → Task
  unfolding new_task
  main_task k = new_task (pos (rand (k * 2) % 10 + 1)) (pos (rand (k * 2 + 1) % 20))

  -- The loop, with `cnt` rounds to go behind `k`.
  unfoldable pub main_tasks : ℕ → ℕ → List Task
  unfolding main_task
  main_tasks zero k = []
  main_tasks (suc cnt) k = main_task k ∷ main_tasks cnt (suc k)

  unfoldable pub main_calls : List Call
  unfolding main_tasks
  main_calls = map enqueue_task (main_tasks 10 0) ++ (stop_pool ∷ [])

-- `defaultnum`
abbrev pub default_num : ℕ
default_num = 5

-- The calls of the thread that owns the pool, among those of the workers.
abbrev pub calls_of : List (Act Task) → List Call
calls_of [] = []
calls_of (enqueues task who ∷ as') = enqueue_task task ∷ calls_of as'
calls_of (stops ∷ as') = stop_pool ∷ calls_of as'
calls_of (goes i ∷ as') = calls_of as'
calls_of (wakes i ∷ as') = calls_of as'
