-- ===== src/ThreadPool/Workers/Keeps.antt =====
-- ThreadPool.hpp: what every step of a worker and every call keeps.
use study_code.Prelude.{
  ℕ, ◌≡◌, refl, sym, subst, true, some, List, get_elem?, some-eq_some, length-replicate,
}
use study_code.ThreadPool.{Effect, new_pool, start}
use study_code.ThreadPool.Workers.{ready, Workers, Act, goes, wakes, enqueues, stops, act, started}
use study_code.ThreadPool.Workers.Counts.{sleeps, is_left, tally-replicate}
use study_code.ThreadPool.Workers.Moves.{Inv, go_at-Inv, wake_at-Inv}
use study_code.ThreadPool.Workers.Calls.{enqueue-Inv, stop-Inv}

module _ {ℓ} {T : Type ℓ} where
  -- Nothing is enqueued behind a stop.
  abbrev pub Fits : Act T → Workers T → Type 0
  Fits (goes i) w = Unit
  Fits (wakes i) w = Unit
  Fits (enqueues task who) w = w.pool.is_running ≡ true
  Fits stops w = Unit

  pub act-Inv :
      (n : ℕ) (a : Act T) (w : Workers T) (r : Workers T × List (Effect T))
      → Inv n w
      → Fits a w
      → act a w ≡ some r
      → Inv n r.0
  unfolding act
  act-Inv n (goes i) w r v h e = go_at-Inv n (get_elem? w.places i) i w r v refl e
  act-Inv n (wakes i) w r v h e = wake_at-Inv n (get_elem? w.places i) i w r v refl e
  act-Inv n (enqueues task who) w r v h e =
      subst (λ z. Inv n z.0) (some-eq_some e) (enqueue-Inv n who task w v h)
  act-Inv n stops w r v h e = subst (λ z. Inv n z.0) (some-eq_some e) (stop-Inv n w v)

  pub started-Inv : (n : ℕ) → Inv n (started {T = T} n)
  unfolding started start new_pool
  started-Inv n = record {
    size = length-replicate n ready;
    sleepers = sym (tally-replicate sleeps n refl);
    nobody_waits = λ off. absurd (cc off);
    nobody_left = λ _. tally-replicate is_left n refl;
    somebody_awake = λ some_task. absurd (some_task refl);
    drained = λ _. refl;
  }
