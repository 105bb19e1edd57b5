-- ===== src/RingQueue/Fifo.antt =====
-- RingQueue.hpp: the ring against a bounded queue.
use study_code.Prelude.{
  ℕ, zero, suc, ◌+◌, ◌%◌, ◌<◌, ◌≤◌, ◌≡◌, refl, sym, ◌∙◌, subst, some, List, [], ◌∷◌, ◌++◌, arith,
  Option-cases, inl, inr, append_assoc, append-nil,
}
use study_code.RingQueue.{
  Phase, outside, passed, moved, RingQueue, Step, productor_waits, productor_writes,
  productor_posts, consumer_waits, consumer_reads, consumer_posts, new_ring, set, step, run,
}
use study_code.RingQueue.Window.{next, place, suc-mod_next, window, window-set, window_snoc}

abbrev pub in_phase : Phase → Phase → ℕ
in_phase outside outside = 1
in_phase passed passed = 1
in_phase moved moved = 1
in_phase _ _ = 0

module _ {ℓ} {A : Type ℓ} where
  -- `n` elements stand from the consumer's index on, up to the producer's, and the semaphores count
  -- the places and the elements that no thread has claimed.
  pub record Holds (q : RingQueue A) (n : ℕ) : Type 0 where
    pub consumer_lt : q.consumer_step < q.cap
    pub productor_place : q.productor_step ≡ place q.cap q.consumer_step n
    pub full : q.data_sem.value + (in_phase moved q.productor + in_phase passed q.consumer) ≡ n
    pub blank :
        q.blank_sem.value + (in_phase passed q.productor + (in_phase moved q.consumer + n)) ≡ q.cap

  abbrev pub put : Step A → List A
  put (productor_writes x) = x ∷ []
  put productor_waits = []
  put productor_posts = []
  put consumer_waits = []
  put consumer_reads = []
  put consumer_posts = []

  abbrev pub put_all : List (Step A) → List A
  put_all [] = []
  put_all (s ∷ ss) = put s ++ put_all ss

  abbrev pub contents : RingQueue A → ℕ → List A
  contents q n = window q.rq q.cap q.consumer_step n

  -- A step keeps the capacity and moves what was put in and what was read.
  abbrev Moves : RingQueue A → ℕ → Step A → RingQueue A × List A → Type ℓ
  Moves q n s r =
      (n' : ℕ) × (r.0.cap ≡ q.cap) × Holds r.0 n' × (contents q n ++ put s ≡ r.1 ++ contents r.0 n')

  writes-Moves :
      (x : A) (q : RingQueue A) (n : ℕ)
      → Holds q n
      → q.productor ≡ passed
      → let p = q.productor_step in
        Moves q n
          (productor_writes x)
          (record q { rq = set q.rq p x; productor_step = (p + 1) % q.cap; productor = moved }, [])
  writes-Moves x q n v e =
      let room : n < q.cap = ground (arith, v.blank, e) in
      let wraps : (q.productor_step + 1) % q.cap ≡ next q.cap q.productor_step =
        suc-mod_next q.cap q.productor_step
          (ground (arith, v.consumer_lt, v.productor_place, room)) in
      let kept = window-set q.rq q.cap q.consumer_step n 0 x v.consumer_lt (omega (arith, room)) in
      let longer =
        window_snoc (set q.rq q.productor_step x) q.cap q.consumer_step n v.consumer_lt room in
      let here : place q.cap q.consumer_step (n + 0) ≡ q.productor_step =
        ground (arith, v.productor_place) in
      let kept' =
        subst
          (λ i. window (set q.rq i x) q.cap q.consumer_step n ≡ window q.rq q.cap q.consumer_step n)
          here kept in
      let newest : set q.rq q.productor_step x (place q.cap q.consumer_step n) ≡ x =
        ground (arith, v.productor_place) in
      let whole : window (set q.rq q.productor_step x) q.cap q.consumer_step n
            ++ (set q.rq q.productor_step x (place q.cap q.consumer_step n) ∷ [])
          ≡ contents q n ++ (x ∷ []) =
        rw kept' (rw newest refl) in
      (
        suc n,
        refl,
        record {
          consumer_lt = v.consumer_lt;
          productor_place = wraps ∙ ground (arith, v.consumer_lt, v.productor_place, room);
          full = ground (arith, v.full, e);
          blank = ground (arith, v.blank, e);
        },
        sym (longer ∙ whole),
      )

  reads-Moves :
      (q : RingQueue A) (n : ℕ)
      → Holds q n
      → q.consumer ≡ passed
      → let c = q.consumer_step in
        Moves q n consumer_reads
          (record q { consumer_step = (c + 1) % q.cap; consumer = moved }, q.rq c ∷ [])
  reads-Moves q zero v e = absurd (ground (arith, v.full, e))
  reads-Moves q (suc n) v e =
      let wraps = suc-mod_next q.cap q.consumer_step v.consumer_lt in
      (
        n,
        refl,
        record {
          consumer_lt = ground (arith, wraps, v.consumer_lt);
          productor_place = rw wraps (ground (arith, v.consumer_lt, v.productor_place, v.blank));
          full = ground (arith, v.full, e);
          blank = ground (arith, v.blank, e);
        },
        rw wraps (append-nil (contents q (suc n))),
      )

  step-Moves :
      (s : Step A) (q : RingQueue A) (n : ℕ) (r : RingQueue A × List A)
      → Holds q n
      → step s q ≡ some r
      → Moves q n s r
  unfolding step
  step-Moves productor_waits q n r v e = (
    n,
    ground arith,
    record {
      consumer_lt = ground (arith, v.consumer_lt);
      productor_place = ground (arith, v.productor_place);
      full = ground (arith, v.full);
      blank = ground (arith, v.blank);
    },
    ground (arith, append-nil (contents q n)),
  )
  step-Moves (productor_writes x) q n r v e =
      let p = q.productor_step in
      let same : (
        record q { rq = set q.rq p x; productor_step = (p + 1) % q.cap; productor = moved },
        [],
      )
          ≡ r =
        ground arith in
      subst (Moves q n (productor_writes x)) same (writes-Moves x q n v (ground arith))
  step-Moves productor_posts q n r v e = (
    n,
    ground arith,
    record {
      consumer_lt = ground (arith, v.consumer_lt);
      productor_place = ground (arith, v.productor_place);
      full = ground (arith, v.full);
      blank = ground (arith, v.blank);
    },
    ground (arith, append-nil (contents q n)),
  )
  step-Moves consumer_waits q n r v e = (
    n,
    ground arith,
    record {
      consumer_lt = ground (arith, v.consumer_lt);
      productor_place = ground (arith, v.productor_place);
      full = ground (arith, v.full);
      blank = ground (arith, v.blank);
    },
    ground (arith, append-nil (contents q n)),
  )
  step-Moves consumer_reads q n r v e =
      let c = q.consumer_step in
      let same : (record q { consumer_step = (c + 1) % q.cap; consumer = moved }, q.rq c ∷ []) ≡ r =
        ground arith in
      subst (Moves q n consumer_reads) same (reads-Moves q n v (ground arith))
  step-Moves consumer_posts q n r v e = (
    n,
    ground arith,
    record {
      consumer_lt = ground (arith, v.consumer_lt);
      productor_place = ground (arith, v.productor_place);
      full = ground (arith, v.full);
      blank = ground (arith, v.blank);
    },
    ground (arith, append-nil (contents q n)),
  )

  -- From a state in which `n` elements stand in the ring, over any order of the producers' and the
  -- consumers' steps, what was in the ring and what was written, in order, is what was read, in
  -- order, and what is in the ring after it; the ring's order, indices and semaphore counts hold
  -- again, for at most as many elements as its capacity.
  pub run-contents :
      (ss : List (Step A)) (q : RingQueue A) (n : ℕ) (q' : RingQueue A) (read : List A)
      → Holds q n
      → run ss q ≡ some (q', read)
      → (n' : ℕ) × (n' ≤ q.cap)
        × Holds q' n'
        × (contents q n ++ put_all ss ≡ read ++ contents q' n')
  unfolding run
  run-contents [] q n q' read v e =
      let same_q : q ≡ q' = ground arith in
      let same_read : [] ≡ read = ground arith in
      (
        n,
        ground (arith, v.blank),
        subst (λ a. Holds a n) same_q v,
        subst (λ a. contents q n ++ [] ≡ read ++ contents a n) same_q
            (rw (← same_read) (append-nil (contents q n))),
      )
  run-contents (s ∷ ss) q n q' read v e = elim (Option-cases (step s q)) [
    | inl none_left ↦ absurd (ground (arith, none_left))
    | inr (stepped, f) ↦ elim (Option-cases (run ss stepped.0)) [
      | inl none_left ↦ absurd (ground (arith, none_left, f))
      | inr (rest, g) ↦
          let (n1, cap1, v1, one) = step-Moves s q n stepped v f in
          let (n2, le, v2, later) = run-contents ss stepped.0 n1 rest.0 rest.1 v1 g in
          let same_q : rest.0 ≡ q' = ground (arith, f, g) in
          let same_read : stepped.1 ++ rest.1 ≡ read = ground (arith, f, g) in
          (
            n2,
            ground (arith, cap1, le),
            subst (λ a. Holds a n2) same_q v2,
            subst (λ a. contents q n ++ put_all (s ∷ ss) ≡ read ++ contents a n2) same_q
                (rw (← same_read) (
                  rw (← append_assoc (contents q n) (put s) (put_all ss)) (
                    rw one (
                      rw (append_assoc stepped.1 (contents stepped.0 n1) (put_all ss))
                        (rw later (sym (append_assoc stepped.1 rest.1 (contents rest.0 n2)))))))),
          )
    ]
  ]

  pub new_ring-Holds : (cap : ℕ) (initial : A) → 0 < cap → Holds (new_ring cap initial) 0
  unfolding new_ring
  new_ring-Holds cap initial h = record {
    consumer_lt = h;
    productor_place = ground arith;
    full = refl;
    blank = omega arith;
  }
