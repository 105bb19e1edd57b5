-- ===== src/BlockQueue/Fifo.antt =====
-- BlockQueue.hpp: the order of the elements, and the bound while no thread is woken in vain.
use study_code.Prelude.{
  ◌≡◌, refl, ap, subst, Option, none, some, List, [], ◌∷◌, ◌++◌, ◌==◌, length, arith, if◌then◌else◌,
  Option-cases, some-eq_some, inl, inr, append_assoc, append-nil,
}
use study_code.BlockQueue.{
  BlockQueue, Effect, waits_productor, waits_consumer, signals_productor, signals_consumer, takes,
  push, enqueue, enqueue_wakes, pop_front, pop, pop_wakes, Step, enqueues, productor_wakes, pops,
  consumer_wakes, step, run,
}

module _ {ℓ} {A : Type ℓ} where
  -- The elements that the consumers took, in order.
  abbrev pub taken : List (Effect A) → List A
  taken [] = []
  taken (takes x ∷ es) = x ∷ taken es
  taken (waits_productor ∷ es) = taken es
  taken (waits_consumer ∷ es) = taken es
  taken (signals_productor ∷ es) = taken es
  taken (signals_consumer ∷ es) = taken es

  -- The element that a step puts in: none where the producer goes to sleep.
  abbrev pub put : Step A → BlockQueue A → List A
  put (enqueues x) q = if length q.dp == q.cap then [] else x ∷ []
  put (productor_wakes x) q = x ∷ []
  put pops q = []
  put consumer_wakes q = []

  abbrev after : Option (BlockQueue A × List (Effect A)) → BlockQueue A → BlockQueue A
  after none q = q
  after (some r) q = r.0

  -- The elements that the producers put in, in the order of their steps.
  abbrev pub put_all : List (Step A) → BlockQueue A → List A
  put_all [] q = []
  put_all (s ∷ ss) q = put s q ++ put_all ss (after (step s q) q)

  taken-append : (es fs : List (Effect A)) → taken (es ++ fs) ≡ taken es ++ taken fs
  taken-append [] fs = refl
  taken-append (takes x ∷ es) fs = ap (λ t. x ∷ t) (taken-append es fs)
  taken-append (waits_productor ∷ es) fs = taken-append es fs
  taken-append (waits_consumer ∷ es) fs = taken-append es fs
  taken-append (signals_productor ∷ es) fs = taken-append es fs
  taken-append (signals_consumer ∷ es) fs = taken-append es fs

  step-put :
      (s : Step A) (dp : List A) (q : BlockQueue A) (r : BlockQueue A × List (Effect A))
      → q.dp ≡ dp
      → step s q ≡ some r
      → q.dp ++ put s q ≡ taken r.1 ++ r.0.dp
  unfolding step push enqueue enqueue_wakes pop_front pop pop_wakes
  step-put (enqueues x) dp q r d e = ground (arith, append-nil q.dp)
  step-put (productor_wakes x) dp q r d e = ground arith
  step-put pops [] q r d e = ground (arith, d)
  step-put pops (x ∷ dp) q r d e = ground (arith, d, append-nil dp)
  step-put consumer_wakes [] q r d e = ground (arith, d)
  step-put consumer_wakes (x ∷ dp) q r d e = ground (arith, d, append-nil dp)

  -- Over any steps of any threads that do not fault, wakings included, what was in the queue and
  -- what the producers put in, in order, is what the consumers took, in order, and what is still
  -- in the queue.
  pub run-put_all :
      (ss : List (Step A)) (q : BlockQueue A) (r : BlockQueue A × List (Effect A))
      → run ss q ≡ some r
      → q.dp ++ put_all ss q ≡ taken r.1 ++ r.0.dp
  unfolding run
  run-put_all [] q r e =
      subst (λ a. q.dp ++ [] ≡ taken a.1 ++ a.0.dp) (some-eq_some e) (append-nil q.dp)
  run-put_all (s ∷ ss) q r e = elim (Option-cases (step s q)) [
    | inl n ↦ absurd (ground (arith, n))
    | inr (stepped, f) ↦ elim (Option-cases (run ss stepped.0)) [
      | inl n ↦ absurd (ground (arith, n, f))
      | inr (rest, g) ↦
          let one = step-put s q.dp q stepped refl f in
          let later = run-put_all ss stepped.0 rest g in
          let e' : some (rest.0, stepped.1 ++ rest.1) ≡ some r = ground (arith, e, f, g) in
          subst (λ a. q.dp ++ put_all (s ∷ ss) q ≡ taken a.1 ++ a.0.dp) (some-eq_some e')
            (rw f (
              rw (← append_assoc q.dp (put s q) (put_all ss stepped.0)) (
                rw one (
                  rw (append_assoc (taken stepped.1) stepped.0.dp (put_all ss stepped.0)) (
                    rw later (
                      rw (taken-append stepped.1 rest.1)
                        (rw (append_assoc (taken stepped.1) (taken rest.1) rest.0.dp) refl)))))))
    ]
  ]
