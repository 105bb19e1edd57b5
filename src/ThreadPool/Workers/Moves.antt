-- ===== src/ThreadPool/Workers/Moves.antt =====
-- ThreadPool.hpp: what the workers keep at every step.
use study_code.Prelude.{
  ℕ, ◌+◌, ◌-◌, ◌≤◌, ◌<◌, ◌≡◌, ◌≢◌, refl, ◌∙◌, subst, true, false, Option, none, some, List, [], ◌∷◌,
  get_elem?, set, length, arith, Bool-cases, inl, inr, some-eq_some, length-set,
}
use study_code.ThreadPool.{ThreadPool, Effect, handler_task, handler_wakes, next_task}
use study_code.ThreadPool.Workers.{
  Place, ready, waiting, woken, left, place_after, Workers, go_at, wake_at,
}
use study_code.ThreadPool.Workers.Counts.{tally, sleeps, waits_there, awake, is_left, tally-set}

awake-only : (p : Place) → awake p ≡ 1 → (waits_there p ≡ 0) × (is_left p ≡ 0)
awake-only ready e = (refl, refl)
awake-only waiting e = absurd (omega arith)
awake-only woken e = (refl, refl)
awake-only left e = absurd (omega arith)

module _ {ℓ} {T : Type ℓ} where
  -- For `n` workers: the count of sleepers is that of the workers in `Wait`; nobody waits behind a stop
  -- and nobody has left before it; while tasks are queued, some worker has a step to take; a worker left
  -- when no task was queued.
  pub record Inv (n : ℕ) (w : Workers T) : Type ℓ where
    pub size : length w.places ≡ n
    pub sleepers : w.pool.slavers_sleep_count ≡ tally sleeps w.places
    pub nobody_waits : w.pool.is_running ≡ false → tally waits_there w.places ≡ 0
    pub nobody_left : w.pool.is_running ≡ true → tally is_left w.places ≡ 0
    pub somebody_awake :
        (w.pool.tasks ≢ []) → w.pool.is_running ≡ true → 0 < n → 0 < tally awake w.places
    pub drained : 0 < tally is_left w.places → w.pool.tasks ≡ []

  -- A worker that has a step takes it: `s` is how it counted among the sleepers.
  next_task-Inv :
      (n i s : ℕ) (p : Place) (tasks : List T) (pool : ThreadPool T) (places : List Place)
      → get_elem? places i ≡ some p
      → awake p ≡ 1
      → sleeps p ≡ s
      → pool.tasks ≡ tasks
      → Inv n (record {
        pool = record pool { slavers_sleep_count = pool.slavers_sleep_count + s };
        places = places;
      })
      → Inv n (record {
        pool = (next_task tasks pool).0;
        places = set places i (place_after (next_task tasks pool).1);
      })
  next_task-Inv n i s p [] pool places e a h t v =
      let (no_wait, not_left) = awake-only p a in
      elim (Bool-cases pool.is_running) [
        | inl on ↦
            let asleep = tally-set sleeps places i p waiting e in
            let gone = tally-set is_left places i p waiting e in
            rw on (record {
              size = length-set places i waiting ∙ v.size;
              sleepers = omega (arith, asleep, v.sleepers, h);
              nobody_waits = λ off. absurd (cc (on, off));
              nobody_left = λ _. omega (arith, gone, v.nobody_left on, not_left);
              somebody_awake = λ some_task. absurd (some_task t);
              drained = λ _. t;
            })
        | inr off ↦
            let asleep = tally-set sleeps places i p left e in
            let waiting_ones = tally-set waits_there places i p left e in
            rw off (record {
              size = length-set places i left ∙ v.size;
              sleepers = omega (arith, asleep, v.sleepers, h);
              nobody_waits = λ _. omega (arith, waiting_ones, v.nobody_waits off, no_wait);
              nobody_left = λ on. absurd (cc (on, off));
              somebody_awake = λ some_task. absurd (some_task t);
              drained = λ _. t;
            })
      ]
  next_task-Inv n i s p (task ∷ tasks) pool places e a h t v =
      let (no_wait, not_left) = awake-only p a in
      let asleep = tally-set sleeps places i p ready e in
      let waiting_ones = tally-set waits_there places i p ready e in
      let up = tally-set awake places i p ready e in
      let up_there = tally-set awake places i p left e in
      let gone = tally-set is_left places i p ready e in
      record {
        size = length-set places i ready ∙ v.size;
        sleepers = omega (arith, asleep, v.sleepers, h);
        nobody_waits = λ off. omega (arith, waiting_ones, v.nobody_waits off, no_wait);
        nobody_left = λ on. omega (arith, gone, v.nobody_left on, not_left);
        somebody_awake = λ _ _ _. omega (arith, up, up_there, a);
        drained = λ l. absurd (cc (v.drained (omega (arith, gone, not_left, l)), t));
      }

  recount :
      (n k : ℕ) (w : Workers T)
      → Inv n w
      → k ≡ w.pool.slavers_sleep_count
      → Inv n (record w { pool = record (w.pool) { slavers_sleep_count = k } })
  recount n k w v e = record {
    size = v.size;
    sleepers = e ∙ v.sleepers;
    nobody_waits = v.nobody_waits;
    nobody_left = v.nobody_left;
    somebody_awake = v.somebody_awake;
    drained = v.drained;
  }

  pub go_at-Inv :
      (n : ℕ) (o : Option Place) (i : ℕ) (w : Workers T) (r : Workers T × List (Effect T))
      → Inv n w
      → get_elem? w.places i ≡ o
      → go_at o i w ≡ some r
      → Inv n r.0
  unfolding go_at handler_task handler_wakes
  go_at-Inv n (some ready) i w r v e f =
      subst (λ z. Inv n z.0) (some-eq_some f)
        (next_task-Inv n i 0 ready w.pool.tasks w.pool w.places e refl refl refl
          (recount n (w.pool.slavers_sleep_count + 0) w v (omega arith)))
  go_at-Inv n (some woken) i w r v e f =
      let one : 1 ≤ tally sleeps w.places =
        omega (arith, tally-set sleeps w.places i woken left e) in
      let pool = record (w.pool) { slavers_sleep_count = w.pool.slavers_sleep_count - 1 } in
      subst (λ z. Inv n z.0) (some-eq_some f)
        (next_task-Inv n i 1 woken w.pool.tasks pool w.places e refl refl refl
          (recount n (w.pool.slavers_sleep_count - 1 + 1) w v (omega (arith, one, v.sleepers))))
  go_at-Inv n (some waiting) i w r v e f = absurd (cc f)
  go_at-Inv n (some left) i w r v e f = absurd (cc f)
  go_at-Inv n none i w r v e f = absurd (cc f)

  pub wake_at-Inv :
      (n : ℕ) (o : Option Place) (i : ℕ) (w : Workers T) (r : Workers T × List (Effect T))
      → Inv n w
      → get_elem? w.places i ≡ o
      → wake_at o i w ≡ some r
      → Inv n r.0
  unfolding wake_at
  wake_at-Inv n (some waiting) i w r v e f =
      let asleep = tally-set sleeps w.places i waiting woken e in
      let waiting_ones = tally-set waits_there w.places i waiting woken e in
      let up = tally-set awake w.places i waiting woken e in
      let gone = tally-set is_left w.places i waiting woken e in
      subst (λ z. Inv n z.0) (some-eq_some f)
        (record {
          size = length-set w.places i woken ∙ v.size;
          sleepers = omega (arith, asleep, v.sleepers);
          nobody_waits = λ off. omega (arith, waiting_ones, v.nobody_waits off);
          nobody_left = λ on. omega (arith, gone, v.nobody_left on);
          somebody_awake = λ t on k. omega (arith, up, v.somebody_awake t on k);
          drained = λ l. v.drained (omega (arith, gone, l));
        })
  wake_at-Inv n (some ready) i w r v e f = absurd (cc f)
  wake_at-Inv n (some woken) i w r v e f = absurd (cc f)
  wake_at-Inv n (some left) i w r v e f = absurd (cc f)
  wake_at-Inv n none i w r v e f = absurd (cc f)
