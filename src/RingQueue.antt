-- ===== src/RingQueue.antt =====
-- thread4/RingQueue.hpp and Sem.hpp: the ring of producers and consumers under two semaphores. The
-- mutex of each side lets one thread of the side in at a time; the steps of the two sides come in any
-- order. The kernel's semaphore counts, and a wait for a count of 0 does not return.
pub mod Window
pub mod Fifo
pub mod Progress
mod Tests
use study_code.Prelude.{
  ◌>>=◌, ℕ, zero, suc, ◌+◌, ◌-◌, ◌%◌, Bool, true, false, Option, none, some, List, [], ◌∷◌, ◌++◌,
  ◌==◌, if◌then◌else◌,
}

pub record Sem : Type 0 where
  pub value : ℕ

-- `P`, where it returns.
abbrev pub wait : Sem → Option Sem
wait sem = if sem.value == 0 then none else some (record { value = sem.value - 1 })

abbrev pub post : Sem → Sem
post sem = record { value = sem.value + 1 }

-- Where a side's thread that holds the mutex stands: outside, behind its `P`, or before its `V`.
pub data Phase : Type 0 where
  outside passed moved : Phase

pub record RingQueue {ℓ} (A : Type ℓ) : Type ℓ where
  pub cap : ℕ
  -- The elements of the vector by their index.
  pub rq : ℕ → A
  pub consumer_step : ℕ
  pub productor_step : ℕ
  pub blank_sem : Sem
  pub data_sem : Sem
  pub productor : Phase
  pub consumer : Phase

pub data Step {ℓ} (A : Type ℓ) : Type ℓ where
  productor_waits : Step A
  productor_writes : A → Step A
  productor_posts : Step A
  consumer_waits : Step A
  consumer_reads : Step A
  consumer_posts : Step A

module _ {ℓ} {A : Type ℓ} where
  -- The constructor; `initial` is what the vector holds.
  unfoldable pub new_ring : ℕ → A → RingQueue A
  new_ring cap initial = record {
    cap = cap;
    rq = λ i. initial;
    consumer_step = 0;
    productor_step = 0;
    blank_sem = record { value = cap };
    data_sem = record { value = 0 };
    productor = outside;
    consumer = outside;
  }

  abbrev pub set : (ℕ → A) → ℕ → A → ℕ → A
  set rq i x j = if i == j then x else rq j

  abbrev enqueue_step : Phase → Step A → RingQueue A → Option (RingQueue A × List A)
  enqueue_step outside productor_waits q = do
    sem ← wait q.blank_sem
    some (record q { blank_sem = sem; productor = passed }, [])
  enqueue_step passed (productor_writes x) q = some (
    record q {
      rq = set q.rq q.productor_step x;
      productor_step = (q.productor_step + 1) % q.cap;
      productor = moved;
    },
    [],
  )
  enqueue_step moved productor_posts q =
      some (record q { data_sem = post q.data_sem; productor = outside }, [])
  enqueue_step _ _ q = none

  abbrev pop_step : Phase → Step A → RingQueue A → Option (RingQueue A × List A)
  pop_step outside consumer_waits q = do
    sem ← wait q.data_sem
    some (record q { data_sem = sem; consumer = passed }, [])
  pop_step passed consumer_reads q = some (
    record q { consumer_step = (q.consumer_step + 1) % q.cap; consumer = moved },
    q.rq q.consumer_step ∷ [],
  )
  pop_step moved consumer_posts q =
      some (record q { blank_sem = post q.blank_sem; consumer = outside }, [])
  pop_step _ _ q = none

  -- The new state and the element read, if any; `none` where the thread cannot take the step now.
  unfoldable pub step : Step A → RingQueue A → Option (RingQueue A × List A)
  step productor_waits q = enqueue_step q.productor productor_waits q
  step (productor_writes x) q = enqueue_step q.productor (productor_writes x) q
  step productor_posts q = enqueue_step q.productor productor_posts q
  step consumer_waits q = pop_step q.consumer consumer_waits q
  step consumer_reads q = pop_step q.consumer consumer_reads q
  step consumer_posts q = pop_step q.consumer consumer_posts q

  unfoldable pub run : List (Step A) → RingQueue A → Option (RingQueue A × List A)
  unfolding step
  run [] q = some (q, [])
  run (s ∷ ss) q = do
    stepped ← step s q
    rest ← run ss stepped.0
    some (rest.0, stepped.1 ++ rest.1)
