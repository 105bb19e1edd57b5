-- ===== src/BlockQueue.antt =====
-- thread3/BlockQueue.hpp: the bounded queue of producers and consumers. What a member does from
-- `pthread_mutex_lock` or from the return of `pthread_cond_wait` to the next wait or unlock is one
-- step; the steps of different threads come in any order, and a thread may wake at any time, as
-- `pthread_cond_wait` documents. `none` is `front` of an empty queue, which is undefined.
pub mod Fifo
pub mod Wakeups
pub mod Main
mod Tests
use study_code.Prelude.{
  ◌>>=◌, ℕ, zero, suc, ◌+◌, ◌-◌, Bool, true, false, Option, none, some, List, [], ◌∷◌, ◌++◌, ltb,
  ◌==◌, length, if◌then◌else◌,
}

-- defaultcap
abbrev pub default_cap : ℕ
default_cap = 5

pub record BlockQueue {ℓ} (A : Type ℓ) : Type ℓ where
  pub dp : List A
  pub cap : ℕ
  pub sleep_productor_num : ℕ
  pub sleep_consumer_num : ℕ

pub data Effect {ℓ} (A : Type ℓ) : Type ℓ where
  waits_productor : Effect A
  waits_consumer : Effect A
  signals_productor : Effect A
  signals_consumer : Effect A
  takes : A → Effect A

module _ {ℓ} {A : Type ℓ} where
  pub new_queue : ℕ → BlockQueue A
  new_queue cap = record { dp = []; cap = cap; sleep_productor_num = 0; sleep_consumer_num = 0 }

  -- `Enqueue` behind its wait.
  unfoldable pub push : A → BlockQueue A → BlockQueue A × List (Effect A)
  push x q = (
    record q { dp = q.dp ++ (x ∷ []) },
    if ltb 0 q.sleep_consumer_num then signals_consumer ∷ [] else [],
  )

  unfoldable pub enqueue : A → BlockQueue A → BlockQueue A × List (Effect A)
  unfolding push
  enqueue x q =
      if length q.dp == q.cap
      then (record q { sleep_productor_num = q.sleep_productor_num + 1 }, waits_productor ∷ [])
      else push x q

  -- The producer wakes: it had counted itself, so its number is positive.
  unfoldable pub enqueue_wakes : A → BlockQueue A → BlockQueue A × List (Effect A)
  unfolding push
  enqueue_wakes x q = push x (record q { sleep_productor_num = q.sleep_productor_num - 1 })

  abbrev take_front : List A → BlockQueue A → Option (BlockQueue A × List (Effect A))
  take_front [] q = none
  take_front (x ∷ dp) q = some (
    record q { dp = dp },
    takes x ∷ (if ltb 0 q.sleep_productor_num then signals_productor ∷ [] else []),
  )

  -- `pop` behind its wait.
  unfoldable pub pop_front : BlockQueue A → Option (BlockQueue A × List (Effect A))
  pop_front q = take_front q.dp q

  abbrev is_empty : List A → Bool
  is_empty [] = true
  is_empty (x ∷ dp) = false

  unfoldable pub pop : BlockQueue A → Option (BlockQueue A × List (Effect A))
  unfolding pop_front
  pop q =
      if is_empty q.dp
      then some (record q { sleep_consumer_num = q.sleep_consumer_num + 1 }, waits_consumer ∷ [])
      else pop_front q

  unfoldable pub pop_wakes : BlockQueue A → Option (BlockQueue A × List (Effect A))
  unfolding pop_front
  pop_wakes q = pop_front (record q { sleep_consumer_num = q.sleep_consumer_num - 1 })

-- A thread's step.
pub data Step {ℓ} (A : Type ℓ) : Type ℓ where
  enqueues : A → Step A
  productor_wakes : A → Step A
  pops : Step A
  consumer_wakes : Step A

module _ {ℓ} {A : Type ℓ} where
  unfoldable pub step : Step A → BlockQueue A → Option (BlockQueue A × List (Effect A))
  unfolding enqueue enqueue_wakes pop pop_wakes
  step (enqueues x) q = some (enqueue x q)
  step (productor_wakes x) q = some (enqueue_wakes x q)
  step pops q = pop q
  step consumer_wakes q = pop_wakes q

  unfoldable pub run : List (Step A) → BlockQueue A → Option (BlockQueue A × List (Effect A))
  unfolding step
  run [] q = some (q, [])
  run (s ∷ ss) q = do
    stepped ← step s q
    rest ← run ss stepped.0
    some (rest.0, stepped.1 ++ rest.1)
