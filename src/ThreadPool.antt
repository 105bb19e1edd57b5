-- ===== src/ThreadPool.antt =====
-- thread5/ThreadPool.hpp: the pool's state and what its members do under the mutex. A step is one
-- thread's part between taking and giving up the mutex; a waiting worker may wake at any time.
pub mod Tasks
pub mod Workers
pub mod Main
mod Tests
use study_code.Prelude.{
  ℕ, zero, suc, ◌+◌, ◌-◌, Bool, true, false, not, ◌&&◌, List, [], ◌∷◌, ◌++◌, ltb, if◌then◌else◌,
}

pub record ThreadPool {ℓ} (T : Type ℓ) : Type ℓ where
  pub is_running : Bool
  pub slaver_num : ℕ
  pub tasks : List T
  pub slavers_sleep_count : ℕ

-- What a step does besides: a worker waits, leaves its loop or takes a task to run; `Start` starts the
-- workers; the condition is signalled or broadcast.
pub data Effect {ℓ} (T : Type ℓ) : Type ℓ where
  waits : Effect T
  leaves : Effect T
  takes : T → Effect T
  starts : ℕ → Effect T
  signals : Effect T
  broadcasts : Effect T

pub data Step {ℓ} (T : Type ℓ) : Type ℓ where
  worker_enters : Step T
  worker_wakes : Step T
  start_called : Step T
  stop_called : Step T
  enqueue_called : T → Step T

module _ {ℓ} {T : Type ℓ} where
  -- The constructor, for a number of workers.
  unfoldable pub new_pool : ℕ → ThreadPool T
  new_pool slaver_num = record {
    is_running = false;
    slaver_num = slaver_num;
    tasks = [];
    slavers_sleep_count = 0;
  }

  abbrev next_task : List T → ThreadPool T → ThreadPool T × List (Effect T)
  next_task [] pool =
      if pool.is_running
      then (record pool { slavers_sleep_count = pool.slavers_sleep_count + 1 }, waits ∷ [])
      else (pool, leaves ∷ [])
  next_task (task ∷ tasks) pool = (record pool { tasks = tasks }, takes task ∷ [])

  -- `HandlerTask` from the test of its inner loop on.
  unfoldable pub handler_task : ThreadPool T → ThreadPool T × List (Effect T)
  handler_task pool = next_task pool.tasks pool

  -- The return from the wait: the worker had counted itself, so the count is positive.
  unfoldable pub handler_wakes : ThreadPool T → ThreadPool T × List (Effect T)
  unfolding handler_task
  handler_wakes pool =
      handler_task (record pool { slavers_sleep_count = pool.slavers_sleep_count - 1 })

  unfoldable pub start : ThreadPool T → ThreadPool T × List (Effect T)
  start pool =
      if pool.is_running
      then (pool, [])
      else (record pool { is_running = true }, starts pool.slaver_num ∷ [])

  unfoldable pub stop : ThreadPool T → ThreadPool T × List (Effect T)
  stop pool = (
    record pool { is_running = false },
    if ltb 0 pool.slavers_sleep_count then broadcasts ∷ [] else [],
  )

  unfoldable pub enqueue : T → ThreadPool T → ThreadPool T × List (Effect T)
  enqueue task pool = (
    record pool { tasks = pool.tasks ++ (task ∷ []) },
    if ltb 0 pool.slavers_sleep_count then signals ∷ [] else [],
  )

  unfoldable pub step : Step T → ThreadPool T → ThreadPool T × List (Effect T)
  unfolding handler_task handler_wakes start stop enqueue
  step worker_enters pool = handler_task pool
  step worker_wakes pool = handler_wakes pool
  step start_called pool = start pool
  step stop_called pool = stop pool
  step (enqueue_called task) pool = enqueue task pool

  unfoldable pub run : List (Step T) → ThreadPool T → ThreadPool T × List (Effect T)
  unfolding step
  run [] pool = (pool, [])
  run (s ∷ ss) pool =
      let stepped = step s pool in let rest = run ss stepped.0 in (rest.0, stepped.1 ++ rest.1)
