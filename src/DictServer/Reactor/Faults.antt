-- ===== src/DictServer/Reactor/Faults.antt =====
-- What the loops that search their own list of connections run into.
use study_code.Prelude.{
  ℕ, ◌≤◌, ◌≡◌, ◌↔◌, refl, Bool, true, false, none, some, List, [], ◌∷◌, ◌++◌, arith, Bool-cases,
  Option-cases, inl, inr, fun_ext, ==_iff, ltb,
}
use study_code.Prelude.Int.{ℤ, pos, negsuc, is_positive}
use study_code.Sys.{Trace, same_fd}
use study_code.DictServer.Connection.{Connection, closed, read_data}
use study_code.DictServer.Reactor.{Heap, World, update, read_at}
use study_code.DictServer.Reactor.Select
use study_code.DictServer.Reactor.Poll
use study_code.DictServer.Reactor.Select.{SelectLoop, fd_setsize}
use study_code.DictServer.Reactor.Poll.{PollLoop}

-- A read allocates nothing: what was freed stays freed.
read_at-none :
    (world : World) (q p : ℕ) (heap : Heap) (after : Heap × Trace)
    → heap p ≡ none
    → read_at world q heap ≡ some after
    → after.0 p ≡ none
unfolding read_at
read_at-none world q p heap after h e = elim (Option-cases (heap q)) [
  | inl n ↦ absurd (ground (arith, n))
  | inr (conn, c) ↦ elim (Option-cases (read_data (world conn.client_fd) conn)) [
    | inl n ↦ absurd (ground (arith, n, c))
    | inr (read, f) ↦ ground (arith, c, f)
  ]
]

module _ (world : World) (ready : ℤ → Bool) where
  visit_one-none :
      (fds : List ℤ) (q p : ℕ) (heap : Heap) (after : Heap × Trace)
      → heap p ≡ none
      → Select.visit_one world ready fds q heap ≡ some after
      → after.0 p ≡ none
  unfolding Select.visit_one
  visit_one-none fds q p heap after h e = elim (Option-cases (heap q)) [
    | inl n ↦ absurd (ground (arith, n))
    | inr (conn, c) ↦ ground (arith, c, read_at-none world q p heap after)
  ]

  visit_dangling :
      (fds : List ℤ) (before rest : List ℕ) (p : ℕ) (heap : Heap)
      → heap p ≡ none
      → Select.visit world ready fds (before ++ (p ∷ rest)) heap ≡ none
  unfolding Select.visit
  visit_dangling fds [] rest p heap h = rw (h, Select.visit_one) refl
  visit_dangling fds (q ∷ before) rest p heap h =
      elim (Option-cases (Select.visit_one world ready fds q heap)) [
        | inl n ↦ ground (arith, n)
        | inr (seen, e) ↦ ground (
          arith,
          e,
          visit_dangling fds before rest p seen.0 (visit_one-none fds q p heap seen h e),
        )
      ]

  -- If a pointer of the list of the `select` loop, wherever it stands, leads to a destroyed
  -- connection, the next round in which `select` returns a positive count follows a dangling
  -- pointer.
  pub round_dangling :
      (eventnum : ℤ) (loop : SelectLoop) (before rest : List ℕ) (p : ℕ) (heap : Heap)
      → is_positive eventnum ≡ true
      → loop.connections ≡ before ++ (p ∷ rest)
      → heap p ≡ none
      → Select.round world ready eventnum loop heap ≡ none
  unfolding Select.round
  round_dangling eventnum loop before rest p heap got l h =
      rw got (rw l (visit_dangling loop.read_fds before rest p heap h))

-- No connection of the list has the descriptor, and all of them live.
abbrev pub OtherFds : ℤ → Heap → List ℕ → Type 0
OtherFds fd heap [] = Unit
OtherFds fd heap (q ∷ ps) =
    ((conn : Connection) × (heap q ≡ some conn) × (same_fd conn.client_fd fd ≡ false))
    × OtherFds fd heap ps

pub read_at_closed :
    (world : World) (p : ℕ) (heap : Heap) (conn : Connection)
    → heap p ≡ some conn
    → conn.status ≡ closed
    → read_at world p heap ≡ some (heap, [])
unfolding read_at read_data
read_at_closed world p heap conn e s =
    let same : update heap p (some conn) ≡ heap = fun_ext (λ q. ground (arith, e, ==_iff p q)) in
    rw (e, s) (ground (arith, same))

same_fd-eq : (a b : ℤ) → same_fd a b ≡ true → a ≡ b
same_fd-eq (pos n) (pos m) h = ground arith
same_fd-eq (pos n) (negsuc m) h = cc
same_fd-eq (negsuc n) (pos m) h = cc
same_fd-eq (negsuc n) (negsuc m) h = ground arith

same_fd-of_eq : (a b : ℤ) → a ≡ b → same_fd a b ≡ true
same_fd-of_eq (pos n) (pos m) h = ground arith
same_fd-of_eq (pos n) (negsuc m) h = cc
same_fd-of_eq (negsuc n) (pos m) h = cc
same_fd-of_eq (negsuc n) (negsuc m) h = ground arith

module _ (world : World) (fd : ℤ) (readable : ℤ → Bool) where
  dispatch_starved :
      (before rest : List ℕ) (p : ℕ) (heap : Heap) (conn : Connection)
      → OtherFds fd heap before
      → heap p ≡ some conn
      → conn.client_fd ≡ fd
      → conn.status ≡ closed
      → Poll.dispatch world readable fd (before ++ (p ∷ rest)) heap ≡ some (heap, [])
  unfolding Poll.dispatch
  dispatch_starved [] rest p heap conn o e f s =
      rw e (rw (same_fd-of_eq conn.client_fd fd f) (read_at_closed world p heap conn e s))
  dispatch_starved (q ∷ before) rest p heap conn ((other, g, d), o) e f s =
      rw g (rw d (dispatch_starved before rest p heap conn o e f s))

  visit_starved :
      (fds : List ℤ) (before rest : List ℕ) (p : ℕ) (heap : Heap) (conn : Connection)
      → ((f : ℤ) → readable f ≡ true → f ≡ fd)
      → OtherFds fd heap before
      → heap p ≡ some conn
      → conn.client_fd ≡ fd
      → conn.status ≡ closed
      → Poll.visit world readable fds (before ++ (p ∷ rest)) heap ≡ some (heap, [])
  unfolding Poll.visit
  visit_starved [] before rest p heap conn only o e f s = refl
  visit_starved (g ∷ fds) before rest p heap conn only o e f s = elim (Bool-cases (readable g)) [
    | inl got ↦ rw got (
        rw (only g got) (
          rw (dispatch_starved before rest p heap conn o e f s)
            (rw (visit_starved fds before rest p heap conn only o e f s) refl)))
    | inr nothing ↦ rw nothing (rw (visit_starved fds before rest p heap conn only o e f s) refl)
  ]

  -- If a closed connection stands in the list of the `poll` loop, behind live connections of other
  -- descriptors only, and no descriptor but its own has input, a round reads nothing, whatever
  -- connections stand behind it.
  pub round_starved :
      (eventnum : ℤ) (loop : PollLoop) (before rest : List ℕ) (p : ℕ) (heap : Heap)
      (conn : Connection)
      → loop.connections ≡ before ++ (p ∷ rest)
      → ((f : ℤ) → readable f ≡ true → f ≡ fd)
      → OtherFds fd heap before
      → heap p ≡ some conn
      → conn.client_fd ≡ fd
      → conn.status ≡ closed
      → Poll.round world readable eventnum loop heap ≡ some (heap, [])
  unfolding Poll.round
  round_starved eventnum loop before rest p heap conn l only o e f s =
      elim (Bool-cases (is_positive eventnum)) [
        | inl got ↦ rw got (rw l (visit_starved loop.poll_fds before rest p heap conn only o e f s))
        | inr timeout ↦ rw timeout refl
      ]

-- The `select` loop writes outside its `fd_set` for a live connection with a non-negative
-- descriptor exactly if the descriptor is at least FD_SETSIZE.
pub add_connection_capacity :
    (p n : ℕ) (heap : Heap) (loop : SelectLoop) (conn : Connection)
    → heap p ≡ some conn
    → conn.client_fd ≡ pos n
    → (Select.add_connection (some p) heap loop ≡ none) ↔ (fd_setsize ≤ n)
unfolding Select.add_connection
add_connection_capacity p n heap loop conn e f = rw e (
    rw f (elim (Bool-cases (ltb n fd_setsize)) [
      | inl fits ↦ rw fits (λ h. cc, λ h. absurd (ground arith))
      | inr over ↦ rw over (λ h. ground arith, λ h. refl)
    ]))
