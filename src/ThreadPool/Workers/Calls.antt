-- ===== src/ThreadPool/Workers/Calls.antt =====
-- ThreadPool.hpp: what `Enqueue` and `Stop` keep.
use study_code.Prelude.{
  ℕ, ◌≤◌, ◌≡◌, refl, true, List, [], ◌∷◌, map, get_elem?, arith, Bool-cases, inl, inr, ltb,
}
use study_code.ThreadPool.{stop, enqueue}
use study_code.ThreadPool.Workers.{
  Place, ready, waiting, woken, left, wake, wake_chosen, awaken, Workers,
}
use study_code.ThreadPool.Workers.Counts.{
  tally, sleeps, waits_there, tally-wake_all, wake_chosen-OneWoken, tally-length,
}
use study_code.ThreadPool.Workers.Moves.{Inv}

waits-le-sleeps : (ps : List Place) → tally waits_there ps ≤ tally sleeps ps
waits-le-sleeps [] = omega arith
waits-le-sleeps (ready ∷ ps) = omega (arith, waits-le-sleeps ps)
waits-le-sleeps (waiting ∷ ps) = omega (arith, waits-le-sleeps ps)
waits-le-sleeps (woken ∷ ps) = omega (arith, waits-le-sleeps ps)
waits-le-sleeps (left ∷ ps) = omega (arith, waits-le-sleeps ps)

module _ {ℓ} {T : Type ℓ} where
  pub enqueue-Inv :
      (n who : ℕ) (task : T) (w : Workers T)
      → Inv n w
      → w.pool.is_running ≡ true
      → Inv n (record {
        pool = (enqueue task w.pool).0;
        places = awaken who (enqueue task w.pool).1 w.places;
      })
  unfolding enqueue
  enqueue-Inv n who task w v on = elim (Bool-cases (ltb 0 w.pool.slavers_sleep_count)) [
    | inl some_sleep ↦
        let chosen = wake_chosen (get_elem? w.places who) who w.places in
        let (asleep, waiting_ones, up, gone) =
          wake_chosen-OneWoken who (get_elem? w.places who) w.places refl in
        let before = tally-length w.places in
        rw some_sleep (record {
          size = omega (arith, tally-length chosen, before, up, gone, v.size);
          sleepers = omega (arith, asleep, v.sleepers);
          nobody_waits = λ off. absurd (cc (on, off));
          nobody_left = λ _. omega (arith, gone, v.nobody_left on);
          somebody_awake =
              λ _ _ k. omega (arith, waiting_ones, up, before, v.nobody_left on, v.size, k);
          drained = λ l. absurd (omega (arith, gone, v.nobody_left on, l));
        })
    | inr none_sleep ↦
        let before = tally-length w.places in
        let none_wait : tally waits_there w.places ≡ 0 =
          ground (arith, none_sleep, v.sleepers, waits-le-sleeps w.places) in
        rw none_sleep (record {
          size = v.size;
          sleepers = v.sleepers;
          nobody_waits = λ off. absurd (cc (on, off));
          nobody_left = λ _. v.nobody_left on;
          somebody_awake = λ _ _ k. omega (arith, before, v.nobody_left on, v.size, k, none_wait);
          drained = λ l. absurd (omega (arith, v.nobody_left on, l));
        })
  ]

  pub stop-Inv :
      (n : ℕ) (w : Workers T)
      → Inv n w
      → Inv n (record { pool = (stop w.pool).0; places = awaken 0 (stop w.pool).1 w.places })
  unfolding stop
  stop-Inv n w v = elim (Bool-cases (ltb 0 w.pool.slavers_sleep_count)) [
    | inl some_sleep ↦
        let (asleep, waiting_ones, up, gone) = tally-wake_all w.places in
        rw some_sleep (record {
          size = omega (
            arith,
            tally-length (map wake w.places),
            tally-length w.places,
            waiting_ones,
            up,
            gone,
            v.size,
          );
          sleepers = omega (arith, asleep, v.sleepers);
          nobody_waits = λ _. waiting_ones;
          nobody_left = λ on. absurd (cc on);
          somebody_awake = λ _ on _. absurd (cc on);
          drained = λ l. v.drained (omega (arith, gone, l));
        })
    | inr none_sleep ↦
        let none_wait : tally waits_there w.places ≡ 0 =
          ground (arith, none_sleep, v.sleepers, waits-le-sleeps w.places) in
        rw none_sleep (record {
          size = v.size;
          sleepers = v.sleepers;
          nobody_waits = λ _. none_wait;
          nobody_left = λ on. absurd (cc on);
          somebody_awake = λ _ on _. absurd (cc on);
          drained = v.drained;
        })
  ]
