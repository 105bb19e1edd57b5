-- ===== src/DictServer/Main/Threads.antt =====
-- main.cpp: the two threads interleaved round by round.
use study_code.Prelude.{
  ℕ, ◌<◌, ◌≡◌, refl, sym, ◌∙◌, subst, Bool, true, none, some, List, [], ◌∷◌, ◌++◌, arith, ◌==◌,
  Bool-cases, Option-cases, some-eq_some, inl, inr, length,
}
use study_code.Prelude.Int.{ℤ, is_positive}
use study_code.Sys.{Trace}
use study_code.DictServer.Connection.{buffer_size}
use study_code.DictServer.Connection.Quiet.{read_data-total}
use study_code.DictServer.Reactor.{Heap, World, is_closed, update, read_at}
use study_code.DictServer.Reactor.Epoll
use study_code.DictServer.Reactor.Epoll.{Event}
use study_code.DictServer.Main.{Server, RoundResults, StartResults, start, main_round, loop_round}
use study_code.DictServer.Main.Reap.{mem, allocated, Listed}
use study_code.DictServer.Main.Safe.{IsValid, main_round-IsValid}

-- The kernel writes no more than `recv` asks for.
abbrev pub Fits : World → Type 0
Fits world = (fd : ℤ) → length (world fd).received < buffer_size

-- Every event carries a pointer of the list.
abbrev pub Known : List ℕ → List Event → Type 0
Known ps [] = Unit
Known ps ((none, input) ∷ events) = Known ps events
Known ps ((some p, input) ∷ events) = (mem p ps ≡ true) × Known ps events

abbrev pub SameLive : Heap → Heap → Type 0
SameLive heap heap' = (q : ℕ) → allocated (heap' q) ≡ allocated (heap q)

pub mem-allocated :
    (heap : Heap) (next p : ℕ) (ps : List ℕ)
    → Listed heap next ps
    → mem p ps ≡ true
    → allocated (heap p) ≡ true
mem-allocated heap next p [] l h = cc
mem-allocated heap next p (q ∷ ps) (lt, a, d, l) h = elim (Bool-cases (q == p)) [
  | inl same ↦ ground (arith, a)
  | inr other ↦ mem-allocated heap next p ps l (ground arith)
]

pub Listed-SameLive :
    (heap heap' : Heap) (next : ℕ) (ps : List ℕ)
    → SameLive heap heap'
    → Listed heap next ps
    → Listed heap' next ps
Listed-SameLive heap heap' next [] same l = tt
Listed-SameLive heap heap' next (p ∷ ps) same (lt, a, d, l) =
    (lt, same p ∙ a, d, Listed-SameLive heap heap' next ps same l)

read_at-total :
    (world : World) (p : ℕ) (heap : Heap)
    → Fits world
    → allocated (heap p) ≡ true
    → (after : Heap × Trace) × (read_at world p heap ≡ some after) × SameLive heap after.0
unfolding read_at
read_at-total world p heap fits a = elim (Option-cases (heap p)) [
  | inl n ↦ absurd (ground (arith, n))
  | inr (conn, e) ↦
      let (after, f) = read_data-total (world conn.client_fd) conn (fits conn.client_fd) in
      ((update heap p (some after.0), after.1), ground (arith, e, f), λ q. ground (arith, e))
]

pub visit_one-total :
    (world : World) (p : ℕ) (input : Bool) (heap : Heap)
    → Fits world
    → allocated (heap p) ≡ true
    → (after : Heap × Trace) × (Epoll.visit_one world (some p, input) heap ≡ some after)
      × SameLive heap after.0
unfolding Epoll.visit_one
visit_one-total world p input heap fits a =
    let (read, f, live) = read_at-total world p heap fits a in
    elim (Option-cases (heap p)) [
      | inl n ↦ absurd (ground (arith, n))
      | inr (conn, e) ↦ elim (Bool-cases (is_closed conn.status)) [
        | inl shut ↦ ((heap, []), ground (arith, e), λ q. refl)
        | inr still ↦ elim (Bool-cases input) [
          | inl got ↦ (read, ground (arith, e, f), live)
          | inr nothing ↦ ((heap, []), ground (arith, e), λ q. refl)
        ]
      ]
    ]

visit-total :
    (world : World) (next : ℕ) (ps : List ℕ) (events : List Event) (heap : Heap)
    → Fits world
    → Listed heap next ps
    → Known ps events
    → (after : Heap × Trace) × (Epoll.visit world events heap ≡ some after) × SameLive heap after.0
unfolding Epoll.visit
visit-total world next ps [] heap fits l k = ((heap, []), refl, λ q. refl)
visit-total world next ps ((none, input) ∷ events) heap fits l k =
    let (rest, f, live) = visit-total world next ps events heap fits l k in
    ((rest.0, rest.1), rw f refl, live)
visit-total world next ps ((some p, input) ∷ events) heap fits l (known, k) =
    let (seen, e, live) =
      visit_one-total world p input heap fits (mem-allocated heap next p ps l known) in
    let (rest, f, live') =
      visit-total world next ps events seen.0 fits (Listed-SameLive heap seen.0 next ps live l) k in
    ((rest.0, seen.1 ++ rest.1), rw e (rw f refl), λ q. live' q ∙ live q)

-- A round of the event loop's thread, over events of listed connections and with messages that fit
-- the buffer, follows no dangling pointer and keeps the list valid.
pub loop_round-IsValid :
    (world : World) (eventnum : ℤ) (events : List Event) (server : Server)
    → Fits world
    → IsValid server
    → Known server.connections events
    → (after : Server × Trace) × (loop_round world eventnum events server ≡ some after)
      × IsValid after.0
unfolding loop_round Epoll.round
loop_round-IsValid world eventnum events server fits v k =
    let (after, e, live) =
      visit-total world server.next server.connections events server.heap fits v k in
    elim (Bool-cases (is_positive eventnum)) [
      | inl some_events ↦ (
        (record server { heap = after.0 }, after.1),
        rw some_events (rw e refl),
        Listed-SameLive server.heap after.0 server.next server.connections live v,
      )
      | inr no_events ↦ ((server, []), rw no_events refl, v)
    ]

-- A round of either thread.
pub data Step (s t : Server) : Type 0 where
  main_thread : (r : RoundResults) (trace : Trace) → main_round r s ≡ some (t, trace) → Step s t
  loop_thread :
      (world : World) (eventnum : ℤ) (events : List Event) (trace : Trace)
      → Fits world
      → Known s.connections events
      → loop_round world eventnum events s ≡ some (t, trace)
      → Step s t

pub data Reach (r : StartResults) : Server → Type 0 where
  begun : Reach r (start r).0
  later : {s t : Server} → Reach r s → Step s t → Reach r t

Step-IsValid : {s t : Server} → Step s t → IsValid s → IsValid t
Step-IsValid {s} (main_thread r trace e) v =
    let (after, f, w, _) = main_round-IsValid r s v in
    subst (λ a. IsValid a.0) (some-eq_some (sym f ∙ e)) w
Step-IsValid {s} (loop_thread world eventnum events trace fits k e) v =
    let (after, f, w) = loop_round-IsValid world eventnum events s fits v k in
    subst (λ a. IsValid a.0) (some-eq_some (sym f ∙ e)) w

-- However the rounds of the two threads interleave after the start, the list of connections is
-- made of distinct pointers that the allocator gave, each to a connection that is not destroyed,
-- provided every message fits the buffer and the kernel gives events of listed connections only.
pub Reach-IsValid : {r : StartResults} {s : Server} → Reach r s → IsValid s
unfolding start
Reach-IsValid begun = tt
Reach-IsValid (later reached st) = Step-IsValid st (Reach-IsValid reached)
