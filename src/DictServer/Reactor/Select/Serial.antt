-- ===== src/DictServer/Reactor/Select/Serial.antt =====
-- SelectLoop.cpp: a divided round and the same round in one step.
use study_code.Prelude.{
  ◌>>=◌, ℕ, suc, ◌+◌, ◌≡◌, ◌≢◌, ◌≤◌, ◌∙◌, refl, subst, ap, fun_ext, Bool, true, false, ◌&&◌, Option,
  some, List, [], ◌∷◌, ◌++◌, length, length-append, arith, if◌then◌else◌, Option-cases, Bool-cases,
  inl, inr, ltb,
}
use study_code.Prelude.Int.{ℤ, is_positive, ltb_ℤ}
use study_code.Sys.{Trace}
use study_code.DictServer.Connection.{Connection}
use study_code.DictServer.Reactor.{Heap, World, update, is_closed}
use study_code.DictServer.Reactor.Select.{
  SelectLoop, fd_set, fd_isset, add_connection, visit_one, visit, round,
}
use study_code.DictServer.Reactor.Steps.{Act, visits, adds, visits_in, visit_all, add_all}
use study_code.DictServer.Reactor.Steps.Serial.{
  AllApart, with_new, update_self, update-other, read_at-with_new, Fresh, Steady, run-serial, Away,
  Unused,
}
use study_code.DictServer.Reactor.Select.Divided.{Roomy, push_back, take, split_round}

module _ (grow : ℕ → ℕ) where
  -- What an addition leaves.
  pub record Pushed (g grown : Roomy) : Type 0 where
    pub longer : length grown.loop.connections ≡ suc (length g.loop.connections)
    pub fits :
        ltb (length g.loop.connections) g.capacity ≡ true
        → (grown.moved ≡ g.moved) × (grown.capacity ≡ g.capacity)
    pub full : ltb (length g.loop.connections) g.capacity ≡ false → grown.moved ≡ true
    pub stays : g.moved ≡ true → grown.moved ≡ true

  push_back-Pushed :
      (g : Roomy) (loop : SelectLoop)
      → length loop.connections ≡ suc (length g.loop.connections)
      → Pushed g (push_back grow loop g)
  push_back-Pushed g loop longer = record {
    longer = longer;
    fits = λ h. ground (arith, h);
    full = λ h. ground (arith, h);
    stays = λ h. elim (Bool-cases (ltb (length g.loop.connections) g.capacity)) [
      | inl fits ↦ ground (arith, fits, h)
      | inr full ↦ ground (arith, full, h)
    ];
  }

  pub take-Pushed :
      (p : ℕ) (heap : Heap) (g grown : Roomy) → take grow p heap g ≡ some grown → Pushed g grown
  unfolding take add_connection
  take-Pushed p heap g grown e = elim (Option-cases (heap p)) [
    | inl missing ↦ absurd (ground (arith, missing))
    | inr (conn, f) ↦ elim (Option-cases (fd_set conn.client_fd g.loop.read_fds)) [
      | inl outside ↦ absurd (ground (arith, f, outside))
      | inr (fds, k) ↦
          let max_fd =
            if ltb_ℤ g.loop.max_fd conn.client_fd then conn.client_fd else g.loop.max_fd in
          let loop : SelectLoop = record {
            read_fds = fds;
            max_fd = max_fd;
            connections = g.loop.connections ++ (p ∷ []);
          } in
          let same : push_back grow loop g ≡ grown = ground (arith, e, f, k) in
          subst (λ r. Pushed g r) same
            (push_back-Pushed g loop (omega (arith, length-append g.loop.connections (p ∷ []))))
    ]
  ]

  take-Local :
      (p : ℕ) (conn : Connection) (g : Roomy) (heap heap' : Heap)
      → take grow p (update heap p (some conn)) g ≡ take grow p (update heap' p (some conn)) g
  unfolding take add_connection
  take-Local p conn g heap heap' =
      rw (update_self heap p (some conn)) (rw (update_self heap' p (some conn)) refl)

abbrev Apart : ℕ → List ℤ → ℕ → Type 0
Apart p fds q = p ≢ q

Away-AllApart : (p : ℕ) (fds : List ℤ) (qs : List ℕ) → Away p qs → AllApart Apart p fds qs
Away-AllApart p fds [] h = tt
Away-AllApart p fds (q ∷ qs) (a, h) = (a, Away-AllApart p fds qs h)

Unused-Fresh :
    (as' : List Act) (fds : List ℤ) (qs : List ℕ) → Unused as' qs → Fresh Apart as' fds qs
Unused-Fresh [] fds qs h = tt
Unused-Fresh (visits ∷ as') fds qs h = Unused-Fresh as' fds qs h
Unused-Fresh (adds p conn ∷ as') fds qs (away, h) =
    (Away-AllApart p fds qs away, Unused-Fresh as' fds qs h)

Unused-nil : (as' : List Act) → Unused as' []
Unused-nil [] = tt
Unused-nil (visits ∷ as') = Unused-nil as'
Unused-nil (adds p conn ∷ as') = (tt, Unused-nil as')

abbrev pub adds_in : List Act → ℕ
adds_in [] = 0
adds_in (visits ∷ as') = adds_in as'
adds_in (adds p conn ∷ as') = suc (adds_in as')

module _ (grow : ℕ → ℕ) (world : World) (ready : ℤ → Bool) where
  visit_one-with_new :
      (p : ℕ) (conn : Connection) (fds : List ℤ) (q : ℕ) (heap : Heap)
      → p ≢ q
      → visit_one world ready fds q (update heap p (some conn))
        ≡ with_new p conn (visit_one world ready fds q heap)
  unfolding visit_one
  visit_one-with_new p conn fds q heap a =
      let same = update-other heap p q (some conn) a in
      elim (Option-cases (heap q)) [
        | inl missing ↦ rw same (rw missing refl)
        | inr (old, e) ↦ elim (Bool-cases (is_closed old.status)) [
          | inl shut ↦ rw same (rw e (rw shut refl))
          | inr live ↦ elim (Bool-cases (fd_isset old.client_fd fds && ready old.client_fd)) [
            | inl got ↦ rw same (rw e (rw live (rw got (read_at-with_new world p q conn heap a))))
            | inr nothing ↦ rw same (rw e (rw live (rw nothing refl)))
          ]
        ]
      ]

  visit_all-visit :
      (fds : List ℤ) (qs : List ℕ) (heap : Heap)
      → visit_all (visit_one world ready) (take grow) (λ r. r.moved) fds qs heap
        ≡ visit world ready fds qs heap
  unfolding visit_all visit
  visit_all-visit fds [] heap = refl
  visit_all-visit fds (q ∷ qs) heap =
      ap
        (λ (later : Heap → Option (Heap × Trace)). visit_one world ready fds q heap >>= λ seen.
          later seen.0 >>= λ rest. some (rest.0, seen.1 ++ rest.1))
        (fun_ext (visit_all-visit fds qs))

  room-Steady :
      (as' : List Act) (g : Roomy)
      → length g.loop.connections + adds_in as' ≤ g.capacity
      → g.moved ≡ false
      → Steady (visit_one world ready) (take grow) (λ r. r.moved) Apart as' g
  room-Steady [] g room h = tt
  room-Steady (visits ∷ as') g room h = room-Steady as' g room h
  room-Steady (adds p conn ∷ as') g room h = λ heap grown e.
      let pushed = take-Pushed grow p (update heap p (some conn)) g grown e in
      let (same, capacity) = pushed.fits (ground arith) in
      (same ∙ h, room-Steady as' grown (omega (arith, pushed.longer, capacity, room)) (same ∙ h))

  -- A round of the `select` loop from the return of `select` on, which goes over the list itself,
  -- connection by connection, while the main thread adds connections in places that no listed
  -- connection has, and goes on to the end of the list, has the same result, the same calls and
  -- the same faults as the round in one step followed by the additions, provided the array has
  -- room for these.
  pub split_round-round :
      (eventnum : ℤ) (as' : List Act) (g : Roomy) (heap : Heap)
      → Unused as' g.loop.connections
      → length g.loop.connections + adds_in as' ≤ g.capacity
      → length g.loop.connections ≤ visits_in as'
      → split_round grow world ready eventnum as' g heap ≡ (do
        seen ← round world ready eventnum g.loop heap
        added ←
            add_all
              (visit_one world ready)
              (take grow)
              (λ r. r.moved)
              as'
              (record g { moved = false })
              seen.0
        some (added.0, added.1, seen.1))
  unfolding split_round round visit_all
  split_round-round eventnum as' g heap unused room n =
      let started = record g { moved = false } in
      let serially = λ (qs : List ℕ) (free : Unused as' qs) (m : length qs ≤ visits_in as').
        run-serial (visit_one world ready) (take grow) (λ r. r.moved) Apart as' g.loop.read_fds qs
          started heap visit_one-with_new (take-Local grow)
          (Unused-Fresh as' g.loop.read_fds qs free) refl (room-Steady as' started room refl) m in
      elim (Bool-cases (is_positive eventnum)) [
        | inl got ↦
            let same = visit_all-visit g.loop.read_fds g.loop.connections heap in
            rw got (serially g.loop.connections unused n ∙ rw same refl)
        | inr nothing ↦ rw nothing (serially [] (Unused-nil as') (omega arith))
      ]
