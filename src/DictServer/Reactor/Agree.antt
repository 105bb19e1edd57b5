-- ===== src/DictServer/Reactor/Agree.antt =====
-- SelectLoop.cpp and PollLoop.cpp side by side.
use study_code.Prelude.{
  ℕ, ◌≡◌, refl, sym, ap, subst, fun_ext, Bool, true, false, ◌&&◌, Option, none, some, List, [], ◌∷◌,
  arith, if◌then◌else◌, Bool-cases, Option-cases, inl, inr, ==_iff,
}
use study_code.Prelude.Int.{ℤ, is_positive}
use study_code.Sys.{Trace, same_fd}
use study_code.Text.{c_string}
use study_code.DictServer.Connection.{
  Connection, ConnStatus, connected, closed, Io, read_data, fill_buffer,
}
use study_code.DictServer.Reactor.{Heap, World, is_closed, read_at}
use study_code.DictServer.Reactor.Select
use study_code.DictServer.Reactor.Poll
use study_code.DictServer.Reactor.Select.{SelectLoop, fd_isset}
use study_code.DictServer.Reactor.Poll.{PollLoop}
use study_code.DictServer.Reactor.Faults.{read_at_closed}

abbrev pub fd_of : Option Connection → Option ℤ
fd_of none = none
fd_of (some conn) = some conn.client_fd

-- Which descriptor the connection at a pointer has.
abbrev pub fds_at : Heap → ℕ → Option ℤ
fds_at heap p = fd_of (heap p)

abbrev has_fd : Option ℤ → ℤ → Bool
has_fd none fd = false
has_fd (some fd') fd = same_fd fd' fd

abbrev is_some : Option ℤ → Bool
is_some none = false
is_some (some fd) = true

-- The first pointer of the list whose connection has the descriptor.
abbrev pub owner : (ℕ → Option ℤ) → ℤ → List ℕ → Option ℕ
owner at fd [] = none
owner at fd (p ∷ ps) = if has_fd (at p) fd then some p else owner at fd ps

abbrev pub AllLive : (ℕ → Option ℤ) → List ℕ → Type 0
AllLive at [] = Unit
AllLive at (p ∷ ps) = (is_some (at p) ≡ true) × AllLive at ps

-- Each descriptor is that of the connection in its place, and of no earlier one of `all`.
abbrev pub Owned : (ℕ → Option ℤ) → List ℕ → List ℕ → List ℤ → Type 0
Owned at all [] [] = Unit
Owned at all (p ∷ ps) (fd ∷ fds) =
    (at p ≡ some fd) × (owner at fd all ≡ some p) × Owned at all ps fds
Owned at all _ _ = ⊥

abbrev pub AllSet : List ℤ → List ℤ → Type 0
AllSet [] read_fds = Unit
AllSet (fd ∷ fds) read_fds = (fd_isset fd read_fds ≡ true) × AllSet fds read_fds

read_data-client_fd :
    (io : Io) (conn : Connection) (after : Connection × Trace)
    → read_data io conn ≡ some after
    → after.0.client_fd ≡ conn.client_fd
unfolding read_data
read_data-client_fd io conn after e = elim (Option-cases (c_string (fill_buffer io.received))) [
  | inl n ↦ ground (arith, n)
  | inr (input, f) ↦ ground (arith, f)
]

read_at-fds_at :
    (world : World) (p : ℕ) (heap : Heap) (after : Heap × Trace)
    → read_at world p heap ≡ some after
    → fds_at after.0 ≡ fds_at heap
unfolding read_at
read_at-fds_at world p heap after e = elim (Option-cases (heap p)) [
  | inl n ↦ absurd (ground (arith, n))
  | inr (conn, c) ↦ elim (Option-cases (read_data (world conn.client_fd) conn)) [
    | inl n ↦ absurd (ground (arith, n, c))
    | inr (read, f) ↦ fun_ext λ q.
        ground (arith, c, f, read_data-client_fd (world conn.client_fd) conn read f, ==_iff p q)
  ]
]

is_closed-of_eq : (status : ConnStatus) → is_closed status ≡ true → status ≡ closed
is_closed-of_eq connected e = cc
is_closed-of_eq closed e = refl

module _ (world : World) (ready : ℤ → Bool) (read_fds : List ℤ) where
  dispatch-owner :
      (fd : ℤ) (all : List ℕ) (p : ℕ) (heap : Heap)
      → AllLive (fds_at heap) all
      → owner (fds_at heap) fd all ≡ some p
      → Poll.dispatch world ready fd all heap ≡ read_at world p heap
  unfolding Poll.dispatch
  dispatch-owner fd [] p heap l o = cc
  dispatch-owner fd (q ∷ all) p heap (a, l) o = elim (Option-cases (heap q)) [
    | inl n ↦ absurd (ground (arith, n))
    | inr (conn, e) ↦ elim (Bool-cases (same_fd conn.client_fd fd)) [
      | inl same ↦ let here : q ≡ p = ground (arith, e) in rw e (rw same (rw here refl))
      | inr other ↦ rw e (rw other (dispatch-owner fd all p heap l (ground (arith, e))))
    ]
  ]

  -- What `poll` does for one entry of its set.
  abbrev poll_one : ℤ → List ℕ → Heap → Option (Heap × Trace)
  poll_one fd all heap = if ready fd then Poll.dispatch world ready fd all heap else some (heap, [])

  poll_one-visit_one :
      (fd : ℤ) (all : List ℕ) (p : ℕ) (heap : Heap)
      → AllLive (fds_at heap) all
      → fds_at heap p ≡ some fd
      → owner (fds_at heap) fd all ≡ some p
      → fd_isset fd read_fds ≡ true
      → poll_one fd all heap ≡ Select.visit_one world ready read_fds p heap
  unfolding Select.visit_one
  poll_one-visit_one fd all p heap l at o s = elim (Option-cases (heap p)) [
    | inl n ↦ absurd (ground (arith, n))
    | inr (conn, e) ↦
        let here : conn.client_fd ≡ fd = ground (arith, e) in
        let reads = dispatch-owner fd all p heap l o in
        elim (Bool-cases (is_closed conn.status)) [
          | inl c ↦
              let quiet = read_at_closed world p heap conn e (is_closed-of_eq conn.status c) in
              rw e (rw c (rw reads (ground (arith, quiet))))
          | inr c ↦ rw e (rw c (rw here (rw s (rw reads refl))))
        ]
  ]

  visit_one-fds_at :
      (p : ℕ) (heap : Heap) (after : Heap × Trace)
      → Select.visit_one world ready read_fds p heap ≡ some after
      → fds_at after.0 ≡ fds_at heap
  unfolding Select.visit_one
  visit_one-fds_at p heap after e = elim (Option-cases (heap p)) [
    | inl n ↦ absurd (ground (arith, n))
    | inr (conn, c) ↦ elim (Bool-cases (is_closed conn.status)) [
      | inl d ↦
          let same : (heap, []) ≡ after = ground (arith, c, d) in ap (λ a. fds_at a.0) (sym same)
      | inr d ↦ elim (Bool-cases (fd_isset conn.client_fd read_fds && ready conn.client_fd)) [
        | inl f ↦ read_at-fds_at world p heap after (ground (arith, c, d, f))
        | inr f ↦
            let same : (heap, []) ≡ after = ground (arith, c, d, f) in
            ap (λ a. fds_at a.0) (sym same)
      ]
    ]
  ]

  visit-agree :
      (all ps : List ℕ) (fds : List ℤ) (heap : Heap)
      → AllLive (fds_at heap) all
      → Owned (fds_at heap) all ps fds
      → AllSet fds read_fds
      → Poll.visit world ready fds all heap ≡ Select.visit world ready read_fds ps heap
  unfolding Poll.visit Select.visit
  visit-agree all [] [] heap l o s = refl
  visit-agree all [] (fd ∷ fds) heap l o s = elim o [ ]
  visit-agree all (p ∷ ps) [] heap l o s = elim o [ ]
  visit-agree all (p ∷ ps) (fd ∷ fds) heap l (at, own, o) (set, s) =
      let one = poll_one-visit_one fd all p heap l at own set in
      elim (Option-cases (Select.visit_one world ready read_fds p heap)) [
        | inl n ↦ ground (arith, one, n)
        | inr (seen, e) ↦
            let same = visit_one-fds_at p heap seen e in
            let rest =
              visit-agree all ps fds seen.0 (subst (λ at. AllLive at all) (sym same) l)
                (subst (λ at. Owned at all ps fds) (sym same) o) s in
            ground (arith, one, e, rest)
      ]

-- If both loops hold the same list of pointers to live connections, each entry of the `poll` set
-- is the descriptor of the connection at the same place and of no earlier one, and the `fd_set` of
-- `select` has every one of them, then a round of the two loops in which the same descriptors are
-- ready does the same reads in the same order, with the same effects, and fails in the same cases.
pub round-agree :
    (world : World) (ready : ℤ → Bool) (eventnum : ℤ)
    → (select : SelectLoop) (poll : PollLoop) (heap : Heap) → poll.connections ≡ select.connections
    → AllLive (fds_at heap) poll.connections
    → Owned (fds_at heap) poll.connections select.connections poll.poll_fds
    → AllSet poll.poll_fds select.read_fds
    → Poll.round world ready eventnum poll heap ≡ Select.round world ready eventnum select heap
unfolding Poll.round Select.round
round-agree world ready eventnum select poll heap c l o s =
    elim (Bool-cases (is_positive eventnum)) [
      | inl p ↦
          let all = poll.connections in
          let agree =
            visit-agree world ready select.read_fds all select.connections poll.poll_fds heap l o
              s in
          rw p agree
      | inr n ↦ rw n refl
    ]
