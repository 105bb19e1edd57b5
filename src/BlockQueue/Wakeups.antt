-- ===== src/BlockQueue/Wakeups.antt =====
-- BlockQueue.hpp: what the single test before a wait is enough for, and what it is not.
use study_code.Prelude.{
  ◌+◌, ◌<◌, ◌≤◌, ◌≡◌, refl, false, none, some, List, [], ◌∷◌, ◌++◌, length, length-append, arith,
  Option-cases, inl, inr,
}
use study_code.BlockQueue.{
  BlockQueue, Effect, push, enqueue, enqueue_wakes, pop_front, pop, pop_wakes, is_empty, Step,
  enqueues, productor_wakes, pops, consumer_wakes, step, run,
}

module _ {ℓ} {A : Type ℓ} where
  -- What a woken thread relies on still holds.
  abbrev pub Finds : Step A → BlockQueue A → Type 0
  Finds (enqueues x) q = Unit
  Finds (productor_wakes x) q = length q.dp < q.cap
  Finds pops q = Unit
  Finds consumer_wakes q = is_empty q.dp ≡ false

  pops-bounded :
      (dp : List A) (q : BlockQueue A)
      → q.dp ≡ dp
      → length q.dp ≤ q.cap
      → (r : BlockQueue A × List (Effect A)) × (pop q ≡ some r) × (length r.0.dp ≤ r.0.cap)
  unfolding pop pop_front
  pops-bounded [] q e h = elim (Option-cases (pop q)) [
    | inl n ↦ absurd (ground (arith, e, n))
    | inr (r, g) ↦ (r, g, ground (arith, e, h, g))
  ]
  pops-bounded (x ∷ dp) q e h = elim (Option-cases (pop q)) [
    | inl n ↦ absurd (ground (arith, e, n))
    | inr (r, g) ↦ (r, g, ground (arith, e, h, g))
  ]

  wakes-bounded :
      (dp : List A) (q : BlockQueue A)
      → q.dp ≡ dp
      → length q.dp ≤ q.cap
      → is_empty q.dp ≡ false
      → (r : BlockQueue A × List (Effect A)) × (pop_wakes q ≡ some r) × (length r.0.dp ≤ r.0.cap)
  unfolding pop_wakes pop_front
  wakes-bounded [] q e h f = absurd (ground (arith, e))
  wakes-bounded (x ∷ dp) q e h f = elim (Option-cases (pop_wakes q)) [
    | inl n ↦ absurd (ground (arith, e, n))
    | inr (r, g) ↦ (r, g, ground (arith, e, h, g))
  ]

  -- If the queue is within its capacity and a woken thread, if the step is one's, still finds what
  -- it waited for, the step does not fault and leaves the queue within its capacity.
  pub step-bounded :
      (s : Step A) (q : BlockQueue A)
      → length q.dp ≤ q.cap
      → Finds s q
      → (r : BlockQueue A × List (Effect A)) × (step s q ≡ some r) × (length r.0.dp ≤ r.0.cap)
  unfolding step push enqueue enqueue_wakes pop_front pop pop_wakes
  step-bounded (enqueues x) q h f = (enqueue x q, refl, ground (arith, length-append q.dp (x ∷ [])))
  step-bounded (productor_wakes x) q h f =
      (enqueue_wakes x q, refl, ground (arith, length-append q.dp (x ∷ [])))
  step-bounded pops q h f = pops-bounded q.dp q refl h
  step-bounded consumer_wakes q h f = wakes-bounded q.dp q refl h f

  -- On an empty queue of positive capacity: if a consumer goes to sleep, a producer puts an
  -- element in, a second consumer takes it and then the first wakes, it takes the front of an
  -- empty queue.
  pub run_stolen :
      (q : BlockQueue A) (x : A)
      → q.dp ≡ []
      → 0 < q.cap
      → run (pops ∷ enqueues x ∷ pops ∷ consumer_wakes ∷ []) q ≡ none
  unfolding run step push enqueue pop_front pop pop_wakes
  run_stolen q x e h = ground (arith, e)

  -- On a full queue that is not empty: if a producer goes to sleep, a consumer takes an element, a
  -- second producer puts one in and then the first wakes, the queue holds one element more than
  -- its capacity.
  pub run_overfull :
      (q : BlockQueue A) (x y z : A) (dp : List A)
      → q.dp ≡ x ∷ dp
      → length q.dp ≡ q.cap
      → (r : BlockQueue A × List (Effect A)) × (run
            (enqueues z ∷ pops ∷ enqueues y ∷ productor_wakes z ∷ [])
            q
          ≡ some r)
        × (length r.0.dp ≡ q.cap + 1)
  unfolding run step push enqueue enqueue_wakes pop_front pop
  run_overfull q x y z dp e h =
      elim (Option-cases (run (enqueues z ∷ pops ∷ enqueues y ∷ productor_wakes z ∷ []) q)) [
        | inl n ↦ absurd (ground (arith, e, h, n))
        | inr (r, g) ↦ (
          r,
          g,
          ground
              (arith, e, h, length-append dp (y ∷ []), length-append (dp ++ (y ∷ [])) (z ∷ []), g),
        )
      ]
