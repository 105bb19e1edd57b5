-- ===== src/RingQueue/Progress.antt =====
-- RingQueue.hpp: what was written can always still be read.
use study_code.Prelude.{
  ℕ, zero, suc, ◌+◌, ◌*◌, ◌-◌, ◌%◌, ◌<◌, ◌≤◌, ◌≡◌, refl, sym, ap, ◌∙◌, some, List, [], ◌∷◌, ◌++◌,
  ◌==◌, arith, Option-cases, Bool-cases, inl, inr, append-nil,
}
use study_code.RingQueue.{
  Phase, outside, passed, moved, RingQueue, Step, productor_waits, productor_writes,
  productor_posts, consumer_waits, consumer_reads, consumer_posts, new_ring, post, step, run,
}
use study_code.RingQueue.Fifo.{in_phase, put, put_all, contents, run-contents, new_ring-Holds}

abbrev still_to_go : Phase → ℕ
still_to_go passed = 1
still_to_go outside = 2
still_to_go moved = 3

module _ {ℓ} {A : Type ℓ} where
  -- The elements that the consumer's counts speak of.
  abbrev left : RingQueue A → ℕ
  left q = q.data_sem.value + (in_phase moved q.productor + in_phase passed q.consumer)

  abbrev measure : RingQueue A → ℕ
  measure q = (3 * left q + in_phase moved q.productor) + still_to_go q.consumer

  -- Every element is read, and no consumer is behind its `P`.
  pub record IsDrained (q : RingQueue A) : Type 0 where
    pub consumer : q.consumer ≡ outside
    pub left_none : left q ≡ 0

  abbrev Drains : RingQueue A → Type ℓ
  Drains q =
      (ts : List (Step A)) × (r : RingQueue A × List A) × (run ts q ≡ some r)
      × (put_all ts ≡ [])
      × IsDrained r.0

  -- A step that writes nothing in front.
  Drains-behind :
      (s : Step A) (q : RingQueue A) (r : RingQueue A × List A)
      → step s q ≡ some r
      → put s ≡ []
      → Drains r.0
      → Drains q
  unfolding run
  Drains-behind s q r e h (ts, last, f, none_put, d) =
      (s ∷ ts, (last.0, r.1 ++ last.1), rw e (rw f refl), rw h none_put, d)

  -- What the consumers' side does where no producer is before its `V`.
  consumer-Drains :
      (c : Phase) (m : ℕ) (q : RingQueue A)
      → q.consumer ≡ c
      → in_phase moved q.productor ≡ 0
      → measure q ≤ m
      → ((q' : RingQueue A) → suc (measure q') ≤ m → Drains q')
      → Drains q
  unfolding step run
  consumer-Drains passed m q f g h ih =
      let q' = record q { consumer_step = (q.consumer_step + 1) % q.cap; consumer = moved } in
      Drains-behind consumer_reads q (q', q.rq q.consumer_step ∷ []) (rw f refl) refl
        (ih q' (ground (arith, f, g, h)))
  consumer-Drains moved m q f g h ih =
      let q' = record q { blank_sem = post q.blank_sem; consumer = outside } in
      Drains-behind consumer_posts q (q', []) (rw f refl) refl (ih q' (ground (arith, f, g, h)))
  consumer-Drains outside m q f g h ih = elim (Bool-cases (q.data_sem.value == 0)) [
    | inl empty ↦
        ([], (q, []), refl, refl, record { consumer = f; left_none = ground (arith, f, g) })
    | inr filled ↦
        let q' = record q {
          data_sem = record { value = q.data_sem.value - 1 };
          consumer = passed;
        } in
        Drains-behind consumer_waits q (q', []) (rw f (rw filled refl)) refl
          (ih q' (ground (arith, f, g, h)))
  ]

  Drains-at :
      (p : Phase) (m : ℕ) (q : RingQueue A)
      → q.productor ≡ p
      → measure q ≤ m
      → ((q' : RingQueue A) → suc (measure q') ≤ m → Drains q')
      → Drains q
  unfolding step
  Drains-at moved m q e h ih =
      let q' = record q { data_sem = post q.data_sem; productor = outside } in
      Drains-behind productor_posts q (q', []) (rw e refl) refl (ih q' (ground (arith, e, h)))
  Drains-at passed m q e h ih = consumer-Drains q.consumer m q refl (ground (arith, e)) h ih
  Drains-at outside m q e h ih = consumer-Drains q.consumer m q refl (ground (arith, e)) h ih

  drains : (m : ℕ) (q : RingQueue A) → measure q ≤ m → Drains q
  drains zero q h = Drains-at q.productor zero q refl h (λ q' k. absurd (omega (arith, k)))
  drains (suc m) q h =
      Drains-at q.productor (suc m) q refl h (λ q' k. drains m q' (omega (arith, k)))

  step-cap :
      (s : Step A) (q : RingQueue A) (r : RingQueue A × List A)
      → step s q ≡ some r
      → r.0.cap ≡ q.cap
  unfolding step
  step-cap productor_waits q r e = ground arith
  step-cap (productor_writes x) q r e = ground arith
  step-cap productor_posts q r e = ground arith
  step-cap consumer_waits q r e = ground arith
  step-cap consumer_reads q r e = ground arith
  step-cap consumer_posts q r e = ground arith

  run-cap :
      (ss : List (Step A)) (q : RingQueue A) (r : RingQueue A × List A)
      → run ss q ≡ some r
      → r.0.cap ≡ q.cap
  unfolding run
  run-cap [] q r e = ground arith
  run-cap (s ∷ ss) q r e = elim (Option-cases (step s q)) [
    | inl none_left ↦ absurd (ground (arith, none_left))
    | inr (stepped, f) ↦ elim (Option-cases (run ss stepped.0)) [
      | inl none_left ↦ absurd (ground (arith, none_left, f))
      | inr (rest, g) ↦ ground (arith, f, g, step-cap s q stepped f, run-cap ss stepped.0 rest g)
    ]
  ]

  -- From every state that steps reach from a new ring of positive capacity, steps that write
  -- nothing lead on to one in which all that was ever written has been read, in order, the count
  -- of elements is 0, no consumer is behind its `P`, and every place is free again but one that a
  -- producer behind its `P` may hold: the two semaphores never block both sides for good.
  pub run_drains :
      (cap : ℕ) (initial : A) (ss : List (Step A)) (q : RingQueue A) (read : List A)
      → 0 < cap
      → run ss (new_ring cap initial) ≡ some (q, read)
      → (ts : List (Step A)) × (q' : RingQueue A) × (read' : List A) × (run ts q ≡ some (q', read'))
        × (put_all ts ≡ [])
        × (put_all ss ≡ read ++ read')
        × (q'.consumer ≡ outside)
        × (q'.data_sem.value ≡ 0)
        × (q'.blank_sem.value + in_phase passed q'.productor ≡ cap)
  unfolding new_ring
  run_drains cap initial ss q read h e =
      let (n, le, v, before) =
        run-contents ss (new_ring cap initial) 0 q read (new_ring-Holds cap initial h) e in
      let (ts, r, f, none_put, d) = drains (measure q) q (omega arith) in
      let (n', le', v', later) = run-contents ts q n r.0 r.1 v f in
      let empty : n' ≡ 0 = ground (arith, v'.full, d.left_none) in
      let caps : r.0.cap ≡ cap = run-cap ts q r f ∙ run-cap ss (new_ring cap initial) (q, read) e in
      let all_read : contents q n ≡ r.1 =
        sym (append-nil (contents q n))
        ∙ ap (λ xs. contents q n ++ xs) (sym none_put)
        ∙ later
        ∙ ap (λ k. r.1 ++ contents r.0 k) empty
        ∙ append-nil r.1 in
      (
        ts,
        r.0,
        r.1,
        f,
        none_put,
        before ∙ rw all_read refl,
        d.consumer,
        ground (arith, d.left_none),
        ground (arith, v'.blank, empty, caps, d.consumer),
      )
