-- ===== src/DictServer/Reactor/Select/Dangling.antt =====
-- SelectLoop.cpp, a round during which `m_connections` outgrows its array.
use study_code.Prelude.{
  ℕ, ◌+◌, ◌≡◌, ◌<◌, refl, Bool, true, false, none, some, List, [], ◌∷◌, ◌++◌, length, arith,
  Option-cases, Bool-cases, inl, inr,
}
use study_code.Prelude.Int.{ℤ, is_positive}
use study_code.DictServer.Connection.{Connection}
use study_code.DictServer.Reactor.{Heap, World, update}
use study_code.DictServer.Reactor.Select.{visit_one}
use study_code.DictServer.Reactor.Steps
use study_code.DictServer.Reactor.Steps.{Act, visits, adds, visits_in, visit_all, add_all}
use study_code.DictServer.Reactor.Select.Divided.{Roomy, take, split_round}
use study_code.DictServer.Reactor.Select.Serial.{take-Pushed, adds_in}

module _ (grow : ℕ → ℕ) (world : World) (ready : ℤ → Bool) where
  moved_faults :
      (as' : List Act) (fds : List ℤ) (q : ℕ) (qs : List ℕ) (g : Roomy) (heap : Heap)
      → g.moved ≡ true
      → 0 < visits_in as'
      → Steps.run (visit_one world ready) (take grow) (λ r. r.moved) as' fds (q ∷ qs) g heap ≡ none
  unfolding Steps.run
  moved_faults [] fds q qs g heap h n = absurd (omega arith)
  moved_faults (visits ∷ as') fds q qs g heap h n = rw h refl
  moved_faults (adds p conn ∷ as') fds q qs g heap h n =
      elim (Option-cases (take grow p (update heap p (some conn)) g)) [
        | inl fails ↦ rw fails refl
        | inr (grown, e) ↦
            let pushed = take-Pushed grow p (update heap p (some conn)) g grown e in
            rw e (moved_faults as' fds q qs grown (update heap p (some conn)) (pushed.stays h) n)
      ]

  run_outgrown :
      (before after : List Act) (p : ℕ) (conn : Connection) (fds : List ℤ) (qs : List ℕ) (g : Roomy)
      (heap : Heap)
      → length g.loop.connections + adds_in before ≡ g.capacity
      → visits_in before < length qs
      → 0 < visits_in after
      → Steps.run
          (visit_one world ready)
          (take grow)
          (λ r. r.moved)
          (before ++ (adds p conn ∷ after))
          fds
          qs
          g
          heap
        ≡ none
  unfolding Steps.run
  run_outgrown [] after p conn fds [] g heap room n m = absurd (omega arith)
  run_outgrown [] after p conn fds (q ∷ qs) g heap room n m =
      elim (Option-cases (take grow p (update heap p (some conn)) g)) [
        | inl fails ↦ rw fails refl
        | inr (grown, e) ↦
            let pushed = take-Pushed grow p (update heap p (some conn)) g grown e in
            rw e (
              moved_faults after fds q qs grown (update heap p (some conn))
                (pushed.full (ground arith)) m)
      ]
  run_outgrown (visits ∷ before) after p conn fds [] g heap room n m = absurd (omega arith)
  run_outgrown (visits ∷ before) after p conn fds (q ∷ qs) g heap room n m =
      elim (Bool-cases g.moved) [
        | inl dangling ↦ rw dangling refl
        | inr sound ↦ elim (Option-cases (visit_one world ready fds q heap)) [
          | inl fails ↦ rw sound (rw fails refl)
          | inr (seen, e) ↦
              let ih = run_outgrown before after p conn fds qs g seen.0 room (omega arith) m in
              ground (arith, sound, e, ih)
        ]
      ]
  run_outgrown (adds p' conn' ∷ before) after p conn fds qs g heap room n m =
      elim (Option-cases (take grow p' (update heap p' (some conn')) g)) [
        | inl fails ↦ rw fails refl
        | inr (grown, e) ↦
            let pushed = take-Pushed grow p' (update heap p' (some conn')) g grown e in
            let (_, capacity) = pushed.fits (ground arith) in
            rw e (
              run_outgrown before after p conn fds qs grown (update heap p' (some conn'))
                (omega (arith, pushed.longer, capacity, room)) n m)
      ]

  -- If during a round of the `select` loop, before its last visit, a connection is added for which
  -- the array has no room, the round follows a dangling iterator, whatever the connections do.
  pub split_round_outgrown :
      (eventnum : ℤ) (before after : List Act) (p : ℕ) (conn : Connection) (g : Roomy) (heap : Heap)
      → is_positive eventnum ≡ true
      → length g.loop.connections + adds_in before ≡ g.capacity
      → visits_in before < length g.loop.connections
      → 0 < visits_in after
      → split_round grow world ready eventnum (before ++ (adds p conn ∷ after)) g heap ≡ none
  unfolding split_round
  split_round_outgrown eventnum before after p conn g heap got room n m = rw got (
      run_outgrown before after p conn g.loop.read_fds g.loop.connections
        (record g { moved = false }) heap room n m)
