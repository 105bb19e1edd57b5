-- ===== src/DictServer/Reactor/Poll/Serial.antt =====
-- PollLoop.cpp: a divided round and the same round in one step.
use study_code.Prelude.{
  ◌>>=◌, ℕ, ◌≡◌, ◌≤◌, ◌∙◌, refl, Bool, Option, some, List, [], ◌∷◌, ◌++◌, ap, fun_ext, length,
  arith, Option-cases, Bool-cases, inl, inr,
}
use study_code.Prelude.Int.{ℤ, is_positive}
use study_code.Sys.{Trace, same_fd}
use study_code.DictServer.Connection.{Connection}
use study_code.DictServer.Reactor.{Heap, World, update}
use study_code.DictServer.Reactor.Poll.{PollLoop, add_connection, dispatch, visit, round}
use study_code.DictServer.Reactor.Steps.{Act, visits, adds, visits_in, visit_all, add_all}
use study_code.DictServer.Reactor.Steps.Serial.{
  AllApart, with_new, update_self, update-other, read_at-with_new, Fresh, Steady, run-serial, Away,
  Unused,
}
use study_code.DictServer.Reactor.Poll.Divided.{never_moved, take, handle_entry, divided_round}

module _ (world : World) (readable : ℤ → Bool) where
  dispatch-with_new :
      (p : ℕ) (conn : Connection) (conns : List ℕ) (fd : ℤ) (heap : Heap)
      → Away p conns
      → dispatch world readable fd conns (update heap p (some conn))
        ≡ with_new p conn (dispatch world readable fd conns heap)
  unfolding dispatch
  dispatch-with_new p conn [] fd heap away = refl
  dispatch-with_new p conn (q ∷ qs) fd heap (a, away) =
      let same = update-other heap p q (some conn) a in
      elim (Option-cases (heap q)) [
        | inl missing ↦ rw same (rw missing refl)
        | inr (old, e) ↦ elim (Bool-cases (same_fd old.client_fd fd)) [
          | inl found ↦ rw same (rw e (rw found (read_at-with_new world p q conn heap a)))
          | inr other ↦ rw same (rw e (rw other (dispatch-with_new p conn qs fd heap away)))
        ]
      ]

  handle_entry-with_new :
      (p : ℕ) (conn : Connection) (conns : List ℕ) (fd : ℤ) (heap : Heap)
      → Away p conns
      → handle_entry world readable conns fd (update heap p (some conn))
        ≡ with_new p conn (handle_entry world readable conns fd heap)
  unfolding handle_entry
  handle_entry-with_new p conn conns fd heap away = elim (Bool-cases (readable fd)) [
    | inl got ↦ rw got (dispatch-with_new p conn conns fd heap away)
    | inr nothing ↦ rw nothing refl
  ]

  visit_all-visit :
      (conns : List ℕ) (fds : List ℤ) (heap : Heap)
      → visit_all (handle_entry world readable) take never_moved conns fds heap
        ≡ visit world readable fds conns heap
  unfolding visit_all visit handle_entry
  visit_all-visit conns [] heap = refl
  visit_all-visit conns (fd ∷ fds) heap =
      ap
        (λ (later : Heap → Option (Heap × Trace)).
          handle_entry world readable conns fd heap >>= λ seen.
          later seen.0 >>= λ rest. some (rest.0, seen.1 ++ rest.1))
        (fun_ext (visit_all-visit conns fds))

take-Local :
    (p : ℕ) (conn : Connection) (loop : PollLoop) (heap heap' : Heap)
    → take p (update heap p (some conn)) loop ≡ take p (update heap' p (some conn)) loop
unfolding take add_connection
take-Local p conn loop heap heap' =
    rw (update_self heap p (some conn)) (rw (update_self heap' p (some conn)) refl)

abbrev Apart : ℕ → List ℕ → ℤ → Type 0
Apart p conns fd = Away p conns

Away-AllApart : (p : ℕ) (conns : List ℕ) (fds : List ℤ) → Away p conns → AllApart Apart p conns fds
Away-AllApart p conns [] h = tt
Away-AllApart p conns (fd ∷ fds) h = (h, Away-AllApart p conns fds h)

Unused-Fresh :
    (as' : List Act) (conns : List ℕ) (fds : List ℤ) → Unused as' conns → Fresh Apart as' conns fds
Unused-Fresh [] conns fds h = tt
Unused-Fresh (visits ∷ as') conns fds h = Unused-Fresh as' conns fds h
Unused-Fresh (adds p conn ∷ as') conns fds (away, h) =
    (Away-AllApart p conns fds away, Unused-Fresh as' conns fds h)

module _ (world : World) (readable : ℤ → Bool) where
  never_moved-Steady :
      (as' : List Act) (loop : PollLoop)
      → Steady (handle_entry world readable) take never_moved Apart as' loop
  never_moved-Steady [] loop = tt
  never_moved-Steady (visits ∷ as') loop = never_moved-Steady as' loop
  never_moved-Steady (adds p conn ∷ as') loop = λ heap grown e. (refl, never_moved-Steady as' grown)

  -- A round of the `poll` loop that handles its copied entries one by one, while the main thread
  -- adds connections in any places that no listed connection has, and goes on to the end of its
  -- entries, has the same result, the same calls and the same faults as the round in one step
  -- followed by the additions.
  pub divided_round-round :
      (eventnum : ℤ) (as' : List Act) (loop : PollLoop) (heap : Heap)
      → Unused as' loop.connections
      → length loop.poll_fds ≤ visits_in as'
      → divided_round world readable eventnum as' loop heap ≡ (do
        seen ← round world readable eventnum loop heap
        added ← add_all (handle_entry world readable) take never_moved as' loop seen.0
        some (added.0, added.1, seen.1))
  unfolding divided_round round visit_all
  divided_round-round eventnum as' loop heap unused n =
      let serially = λ (fds : List ℤ) (n : length fds ≤ visits_in as').
        run-serial (handle_entry world readable) take never_moved Apart as' loop.connections fds
          loop heap (handle_entry-with_new world readable) take-Local
          (Unused-Fresh as' loop.connections fds unused) refl (never_moved-Steady as' loop) n in
      elim (Bool-cases (is_positive eventnum)) [
        | inl got ↦
            let same = visit_all-visit world readable loop.connections loop.poll_fds heap in
            rw got (serially loop.poll_fds n ∙ rw same refl)
        | inr nothing ↦ rw nothing (serially [] (omega arith))
      ]
