-- ===== src/ThreadPool/Workers/Taken.antt =====
-- ThreadPool.hpp: the tasks over a run of the workers and their owner.
use study_code.Prelude.{
  ℕ, ◌≡◌, refl, sym, ap, ◌∙◌, subst, Bool, true, false, Option, none, some, List, [], ◌∷◌, ◌++◌,
  get_elem?, append_assoc, append-nil, arith, Option-cases, inl, inr, some-eq_some,
}
use study_code.ThreadPool.{
  ThreadPool, Effect, worker_enters, worker_wakes, stop_called, enqueue_called, handler_task,
  handler_wakes, next_task, step, stop, enqueue,
}
use study_code.ThreadPool.Tasks.{taken, taken-append, step-given}
use study_code.ThreadPool.Workers.{
  Place, ready, waiting, woken, left, Workers, Act, goes, wakes, enqueues, stops, go_at, wake_at,
  act, run,
}
use study_code.ThreadPool.Workers.Moves.{Inv}
use study_code.ThreadPool.Workers.Keeps.{Fits, act-Inv}

module _ {ℓ} {T : Type ℓ} where
  -- The tasks that the owner enqueues, in order.
  abbrev pub enqueued : List (Act T) → List T
  enqueued [] = []
  enqueued (enqueues task who ∷ as') = task ∷ enqueued as'
  enqueued (goes i ∷ as') = enqueued as'
  enqueued (wakes i ∷ as') = enqueued as'
  enqueued (stops ∷ as') = enqueued as'

  -- Behind a stop nothing is enqueued.
  abbrev pub Orderly : Bool → List (Act T) → Type 0
  Orderly running [] = Unit
  Orderly running (enqueues task who ∷ as') = (running ≡ true) × Orderly running as'
  Orderly running (stops ∷ as') = Orderly false as'
  Orderly running (goes i ∷ as') = Orderly running as'
  Orderly running (wakes i ∷ as') = Orderly running as'

  -- What was queued and what is new comes out as what is taken and what is queued then.
  abbrev pub Moves : Workers T → List T → Workers T × List (Effect T) → Type ℓ
  Moves w new r = w.pool.tasks ++ new ≡ taken r.1 ++ r.0.pool.tasks

  next_task-running :
      (tasks : List T) (pool : ThreadPool T) → (next_task tasks pool).0.is_running ≡ pool.is_running
  next_task-running [] pool = ground arith
  next_task-running (task ∷ tasks) pool = refl

  go_at-Moves :
      (o : Option Place) (i : ℕ) (w : Workers T) (r : Workers T × List (Effect T))
      → go_at o i w ≡ some r
      → Moves w [] r × (r.0.pool.is_running ≡ w.pool.is_running)
  unfolding go_at step handler_task handler_wakes
  go_at-Moves (some ready) i w r e =
      subst (λ z. Moves w [] z × (z.0.pool.is_running ≡ w.pool.is_running)) (some-eq_some e)
        (step-given worker_enters w.pool.tasks w.pool refl, next_task-running w.pool.tasks w.pool)
  go_at-Moves (some woken) i w r e =
      subst (λ z. Moves w [] z × (z.0.pool.is_running ≡ w.pool.is_running)) (some-eq_some e)
        (step-given worker_wakes w.pool.tasks w.pool refl, next_task-running w.pool.tasks _)
  go_at-Moves (some waiting) i w r e = absurd (cc e)
  go_at-Moves (some left) i w r e = absurd (cc e)
  go_at-Moves none i w r e = absurd (cc e)

  wake_at-Moves :
      (o : Option Place) (i : ℕ) (w : Workers T) (r : Workers T × List (Effect T))
      → wake_at o i w ≡ some r
      → Moves w [] r × (r.0.pool.is_running ≡ w.pool.is_running)
  unfolding wake_at
  wake_at-Moves (some waiting) i w r e =
      subst (λ z. Moves w [] z × (z.0.pool.is_running ≡ w.pool.is_running)) (some-eq_some e)
        (append-nil w.pool.tasks, refl)
  wake_at-Moves (some ready) i w r e = absurd (cc e)
  wake_at-Moves (some woken) i w r e = absurd (cc e)
  wake_at-Moves (some left) i w r e = absurd (cc e)
  wake_at-Moves none i w r e = absurd (cc e)

  -- Where the running flag stands behind an act.
  abbrev pub running_after : Act T → Bool → Bool
  running_after stops running = false
  running_after (goes i) running = running
  running_after (wakes i) running = running
  running_after (enqueues task who) running = running

  act-Moves :
      (a : Act T) (w : Workers T) (r : Workers T × List (Effect T))
      → act a w ≡ some r
      → Moves w (enqueued (a ∷ [])) r × (r.0.pool.is_running ≡ running_after a w.pool.is_running)
  unfolding act step enqueue stop
  act-Moves (goes i) w r e = go_at-Moves (get_elem? w.places i) i w r e
  act-Moves (wakes i) w r e = wake_at-Moves (get_elem? w.places i) i w r e
  act-Moves (enqueues task who) w r e =
      subst (λ z. Moves w (task ∷ []) z × (z.0.pool.is_running ≡ w.pool.is_running))
        (some-eq_some e) (step-given (enqueue_called task) w.pool.tasks w.pool refl, refl)
  act-Moves stops w r e =
      subst (λ z. Moves w [] z × (z.0.pool.is_running ≡ false)) (some-eq_some e)
        (step-given stop_called w.pool.tasks w.pool refl, refl)

  -- Where it stands behind some acts.
  abbrev pub running_at_end : Bool → List (Act T) → Bool
  running_at_end running [] = running
  running_at_end running (a ∷ as') = running_at_end (running_after a running) as'

  Orderly-tail :
      (a : Act T) (as' : List (Act T)) (w : Workers T)
      → Orderly w.pool.is_running (a ∷ as')
      → Fits a w × Orderly (running_after a w.pool.is_running) as'
  Orderly-tail (goes i) as' w h = (tt, h)
  Orderly-tail (wakes i) as' w h = (tt, h)
  Orderly-tail (enqueues task who) as' w h = h
  Orderly-tail stops as' w h = (tt, h)

  enqueued-cons :
      (a : Act T) (as' : List (Act T)) → enqueued (a ∷ as') ≡ enqueued (a ∷ []) ++ enqueued as'
  enqueued-cons (goes i) as' = refl
  enqueued-cons (wakes i) as' = refl
  enqueued-cons (enqueues task who) as' = refl
  enqueued-cons stops as' = refl

  Moves-append :
      (a : Act T) (as' : List (Act T)) (w : Workers T) (next rest : Workers T × List (Effect T))
      → Moves w (enqueued (a ∷ [])) next
      → Moves next.0 (enqueued as') rest
      → Moves w (enqueued (a ∷ as')) (rest.0, next.1 ++ rest.1)
  Moves-append a as' w next rest e f = rw (enqueued-cons a as') (
      rw (← append_assoc w.pool.tasks (enqueued (a ∷ [])) (enqueued as')) (
        rw e (
          rw (append_assoc (taken next.1) next.0.pool.tasks (enqueued as')) (
            rw f (
              rw (taken-append next.1 rest.1)
                (rw (append_assoc (taken next.1) (taken rest.1) rest.0.pool.tasks) refl))))))

  pub run-Moves :
      (n : ℕ) (as' : List (Act T)) (w : Workers T) (r : Workers T × List (Effect T))
      → Inv n w
      → Orderly w.pool.is_running as'
      → run as' w ≡ some r
      → Inv n r.0
        × Moves w (enqueued as') r
        × (r.0.pool.is_running ≡ running_at_end w.pool.is_running as')
  unfolding run
  run-Moves n [] w r v h e =
      subst (λ z. Inv n z.0 × Moves w [] z × (z.0.pool.is_running ≡ w.pool.is_running))
        (some-eq_some e) (v, append-nil w.pool.tasks, refl)
  run-Moves n (a ∷ as') w r v h e = elim (Option-cases (act a w)) [
    | inl fails ↦ absurd (ground (arith, fails))
    | inr (next, f) ↦ elim (Option-cases (run as' next.0)) [
      | inl fails ↦ absurd (ground (arith, fails, f))
      | inr (rest, g) ↦
          let (fits, later) = Orderly-tail a as' w h in
          let (moved, running) = act-Moves a w next f in
          let (valid, moved', running') =
            run-Moves n as' next.0 rest (act-Inv n a w next v fits f)
              (subst (λ b. Orderly b as') (sym running) later) g in
          let e' : some (rest.0, next.1 ++ rest.1) ≡ some r = ground (arith, e, f, g) in
          subst
            (λ z.
              Inv n z.0
              × Moves w (enqueued (a ∷ as')) z
              × (z.0.pool.is_running ≡ running_at_end w.pool.is_running (a ∷ as')))
            (some-eq_some e')
            (
              valid,
              Moves-append a as' w next rest moved moved',
              running' ∙ ap (λ b. running_at_end b as') running,
            )
    ]
  ]
