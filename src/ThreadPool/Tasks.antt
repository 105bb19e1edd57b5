-- ===== src/ThreadPool/Tasks.antt =====
-- ThreadPool.hpp: the order of the tasks, and the workers after a stop.
use study_code.Prelude.{
  ◌≡◌, refl, ap, Bool, true, false, List, [], ◌∷◌, ◌++◌, arith, append_assoc, append-nil,
}
use study_code.ThreadPool.{
  ThreadPool, Effect, waits, leaves, takes, starts, signals, broadcasts, Step, worker_enters,
  worker_wakes, start_called, stop_called, enqueue_called, handler_task, handler_wakes, start, stop,
  enqueue, step, run,
}

module _ {ℓ} {T : Type ℓ} where
  -- The tasks that the workers took, in order.
  abbrev pub taken : List (Effect T) → List T
  taken [] = []
  taken (takes task ∷ es) = task ∷ taken es
  taken (waits ∷ es) = taken es
  taken (leaves ∷ es) = taken es
  taken (starts n ∷ es) = taken es
  taken (signals ∷ es) = taken es
  taken (broadcasts ∷ es) = taken es

  -- The tasks that `Enqueue` was called with, in order.
  abbrev pub given : List (Step T) → List T
  given [] = []
  given (enqueue_called task ∷ ss) = task ∷ given ss
  given (worker_enters ∷ ss) = given ss
  given (worker_wakes ∷ ss) = given ss
  given (start_called ∷ ss) = given ss
  given (stop_called ∷ ss) = given ss

  pub taken-append : (es fs : List (Effect T)) → taken (es ++ fs) ≡ taken es ++ taken fs
  taken-append [] fs = refl
  taken-append (takes task ∷ es) fs = ap (λ ts. task ∷ ts) (taken-append es fs)
  taken-append (waits ∷ es) fs = taken-append es fs
  taken-append (leaves ∷ es) fs = taken-append es fs
  taken-append (starts n ∷ es) fs = taken-append es fs
  taken-append (signals ∷ es) fs = taken-append es fs
  taken-append (broadcasts ∷ es) fs = taken-append es fs

  given-append : (ss ts : List (Step T)) → given (ss ++ ts) ≡ given ss ++ given ts
  given-append [] ts = refl
  given-append (enqueue_called task ∷ ss) ts = ap (λ gs. task ∷ gs) (given-append ss ts)
  given-append (worker_enters ∷ ss) ts = given-append ss ts
  given-append (worker_wakes ∷ ss) ts = given-append ss ts
  given-append (start_called ∷ ss) ts = given-append ss ts
  given-append (stop_called ∷ ss) ts = given-append ss ts

  pub step-given :
      (s : Step T) (tasks : List T) (pool : ThreadPool T)
      → pool.tasks ≡ tasks
      → pool.tasks ++ given (s ∷ []) ≡ taken (step s pool).1 ++ (step s pool).0.tasks
  unfolding step handler_task handler_wakes start stop enqueue
  step-given worker_enters [] pool e = ground (arith, e, append-nil pool.tasks)
  step-given worker_enters (task ∷ tasks) pool e = ground (arith, e, append-nil tasks)
  step-given worker_wakes [] pool e = ground (arith, e, append-nil pool.tasks)
  step-given worker_wakes (task ∷ tasks) pool e = ground (arith, e, append-nil tasks)
  step-given start_called tasks pool e = ground (arith, append-nil pool.tasks)
  step-given stop_called tasks pool e = ground (arith, append-nil pool.tasks)
  step-given (enqueue_called task) tasks pool e = ground arith

  -- Over any steps of any threads, wakings, starts and stops included, the tasks that were queued
  -- and those that `Enqueue` was given, in order, are those that the workers took, in order, and
  -- those still queued.
  pub run-given :
      (ss : List (Step T)) (pool : ThreadPool T)
      → pool.tasks ++ given ss ≡ taken (run ss pool).1 ++ (run ss pool).0.tasks
  unfolding run
  run-given [] pool = append-nil pool.tasks
  run-given (s ∷ ss) pool =
      let stepped = step s pool in
      let rest = run ss stepped.0 in
      rw (given-append (s ∷ []) ss) (
        rw (← append_assoc pool.tasks (given (s ∷ [])) (given ss)) (
          rw (step-given s pool.tasks pool refl) (
            rw (append_assoc (taken stepped.1) stepped.0.tasks (given ss)) (
              rw (run-given ss stepped.0) (
                rw (taken-append stepped.1 rest.1)
                  (rw (append_assoc (taken stepped.1) (taken rest.1) rest.0.tasks) refl))))))

  -- No call of `Start` among the steps.
  abbrev pub NoStart : List (Step T) → Type 0
  NoStart [] = Unit
  NoStart (start_called ∷ ss) = ⊥
  NoStart (worker_enters ∷ ss) = NoStart ss
  NoStart (worker_wakes ∷ ss) = NoStart ss
  NoStart (stop_called ∷ ss) = NoStart ss
  NoStart (enqueue_called task ∷ ss) = NoStart ss

  abbrev pub any_waits : List (Effect T) → Bool
  any_waits [] = false
  any_waits (waits ∷ es) = true
  any_waits (takes task ∷ es) = any_waits es
  any_waits (leaves ∷ es) = any_waits es
  any_waits (starts n ∷ es) = any_waits es
  any_waits (signals ∷ es) = any_waits es
  any_waits (broadcasts ∷ es) = any_waits es

  any_waits-append :
      (es fs : List (Effect T))
      → any_waits es ≡ false
      → any_waits fs ≡ false
      → any_waits (es ++ fs) ≡ false
  any_waits-append [] fs e f = f
  any_waits-append (waits ∷ es) fs e f = cc
  any_waits-append (takes task ∷ es) fs e f = any_waits-append es fs e f
  any_waits-append (leaves ∷ es) fs e f = any_waits-append es fs e f
  any_waits-append (starts n ∷ es) fs e f = any_waits-append es fs e f
  any_waits-append (signals ∷ es) fs e f = any_waits-append es fs e f
  any_waits-append (broadcasts ∷ es) fs e f = any_waits-append es fs e f

  step-stopped :
      (s : Step T) (tasks : List T) (pool : ThreadPool T)
      → NoStart (s ∷ [])
      → pool.tasks ≡ tasks
      → pool.is_running ≡ false
      → ((step s pool).0.is_running ≡ false) × (any_waits (step s pool).1 ≡ false)
  unfolding step handler_task handler_wakes start stop enqueue
  step-stopped worker_enters [] pool n e h = (ground (arith, e, h), ground (arith, e, h))
  step-stopped worker_enters (task ∷ tasks) pool n e h =
      (ground (arith, e, h), ground (arith, e, h))
  step-stopped worker_wakes [] pool n e h = (ground (arith, e, h), ground (arith, e, h))
  step-stopped worker_wakes (task ∷ tasks) pool n e h = (ground (arith, e, h), ground (arith, e, h))
  step-stopped start_called tasks pool n e h = elim n [ ]
  step-stopped stop_called tasks pool n e h = (refl, ground arith)
  step-stopped (enqueue_called task) tasks pool n e h = (h, ground arith)

  NoStart-tail :
      (s : Step T) (ss : List (Step T)) → NoStart (s ∷ ss) → NoStart (s ∷ []) × NoStart ss
  NoStart-tail start_called ss n = elim n [ ]
  NoStart-tail worker_enters ss n = (tt, n)
  NoStart-tail worker_wakes ss n = (tt, n)
  NoStart-tail stop_called ss n = (tt, n)
  NoStart-tail (enqueue_called task) ss n = (tt, n)

  -- While the pool is stopped and is not started again, no worker goes to sleep, whatever is
  -- called and whoever wakes.
  pub run_stopped :
      (ss : List (Step T)) (pool : ThreadPool T)
      → NoStart ss
      → pool.is_running ≡ false
      → any_waits (run ss pool).1 ≡ false
  unfolding run
  run_stopped [] pool n h = refl
  run_stopped (s ∷ ss) pool n h =
      let (here, later) = NoStart-tail s ss n in
      let (still, quiet) = step-stopped s pool.tasks pool here refl h in
      any_waits-append (step s pool).1 (run ss (step s pool).0).1 quiet
        (run_stopped ss (step s pool).0 later still)
