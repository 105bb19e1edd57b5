-- ===== src/ThreadPool/Workers/Drain.antt =====
-- ThreadPool.hpp: no task is left behind, and `Wait` returns behind a stop.
use study_code.Prelude.{
  ℕ, suc, ◌<◌, ◌≡◌, refl, sym, ap, ◌∙◌, true, Option, none, some, List, [], ◌∷◌, ◌++◌, get_elem?,
  append-nil, arith, Bool-cases, List-cases, inl, inr, if◌then◌else◌,
}
use study_code.ThreadPool.{Effect, start, new_pool}
use study_code.ThreadPool.Tasks.{taken}
use study_code.ThreadPool.Workers.{
  Place, ready, waiting, woken, left, Workers, Act, goes, go_at, act, started, run,
}
use study_code.ThreadPool.Workers.Counts.{tally, waits_there, awake, is_left, tally-length}
use study_code.ThreadPool.Workers.Keeps.{started-Inv}
use study_code.ThreadPool.Workers.Taken.{enqueued, Orderly, running_at_end, run-Moves}

nobody_awake :
    (ps : List Place)
    → ((i : ℕ) (p : Place) → get_elem? ps i ≡ some p → awake p ≡ 0)
    → tally awake ps ≡ 0
nobody_awake [] h = refl
nobody_awake (p ∷ ps) h = omega (arith, h 0 p refl, nobody_awake ps (λ i q e. h (suc i) q e))

module _ {ℓ} {T : Type ℓ} where
  go_at-none :
      (o : Option Place) (i : ℕ) (w : Workers T) (p : Place)
      → o ≡ some p
      → go_at o i w ≡ none
      → awake p ≡ 0
  unfolding go_at
  go_at-none o i w ready e h = absurd (cc (sym (ap (λ z. go_at z i w) e) ∙ h))
  go_at-none o i w woken e h = absurd (cc (sym (ap (λ z. go_at z i w) e) ∙ h))
  go_at-none o i w waiting e h = refl
  go_at-none o i w left e h = refl

  stuck-awake : (w : Workers T) → ((i : ℕ) → act (goes i) w ≡ none) → tally awake w.places ≡ 0
  unfolding act
  stuck-awake w stuck =
      nobody_awake w.places (λ i p e. go_at-none (get_elem? w.places i) i w p e (stuck i))

  -- For at least one worker, started, whatever the order of the workers' steps, the spurious
  -- wakings and the calls of `Enqueue` and `Stop`, of which none enqueues behind a stop, and
  -- whichever waiting worker a signal wakes: when no worker can take a step, every task enqueued
  -- was taken, in order, the queue is empty, and all workers wait, or, behind a stop, all have
  -- left, so that `Wait` returns.
  pub all_taken_at_rest :
      (n : ℕ) (as' : List (Act T)) (w : Workers T) (es : List (Effect T))
      → 0 < n
      → Orderly true as'
      → run as' (started n) ≡ some (w, es)
      → ((i : ℕ) → act (goes i) w ≡ none)
      → (taken es ≡ enqueued as')
        × (w.pool.tasks ≡ [])
        × ((if running_at_end true as' then tally waits_there w.places else tally is_left w.places)
            ≡ n)
  unfolding started start new_pool
  all_taken_at_rest n as' w es k h e stuck =
      let (v, moved, running) = run-Moves n as' (started n) (w, es) (started-Inv n) h e in
      let asleep = stuck-awake w stuck in
      let places = tally-length w.places in
      let all_taken : w.pool.tasks ≡ [] → taken es ≡ enqueued as' =
        λ empty. sym (moved ∙ ap (λ ts. taken es ++ ts) empty ∙ append-nil (taken es)) in
      elim (Bool-cases w.pool.is_running) [
        | inl on ↦ elim (List-cases w.pool.tasks) [
          | inl empty ↦
              rw (sym running ∙ on)
                (all_taken empty, empty, omega (arith, asleep, places, v.size, v.nobody_left on))
          | inr (task, tasks, e') ↦
              absurd (omega (arith, asleep, v.somebody_awake (λ f. absurd (cc (e', f))) on k))
        ]
        | inr off ↦
            let gone : tally is_left w.places ≡ n =
              omega (arith, asleep, places, v.size, v.nobody_waits off) in
            let empty = v.drained (omega (arith, gone, k)) in
            rw (sym running ∙ off) (all_taken empty, empty, gone)
      ]
