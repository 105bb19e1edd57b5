-- ===== src/DictServer/Main/Safe.antt =====
-- main.cpp: a round of the main thread and the list of connections.
use study_code.Prelude.{
  ℕ, suc, ◌<◌, ◌≡◌, refl, sym, subst, false, some, List, [], ◌∷◌, ◌++◌, arith, Bool-cases,
  Option-cases, inl, inr,
}
use study_code.Prelude.Int.{ℤ, is_positive}
use study_code.Sys.{Trace}
use study_code.DictServer.Connection.{Connection, new_connection}
use study_code.DictServer.Socket.{accept_client}
use study_code.DictServer.Reactor.{Heap, update}
use study_code.DictServer.Reactor.Epoll
use study_code.DictServer.Reactor.Epoll.{Event}
use study_code.DictServer.Main.{Server, RoundResults, accept_one, main_round}
use study_code.DictServer.Main.Reap.{mem, closed_at, Listed, open_ones, reap_lem}

-- The pointers of `g_connections` are distinct and lead to connections.
abbrev pub IsValid : Server → Type 0
IsValid server = Listed server.heap server.next server.connections

-- No connection of the list is closed.
abbrev pub AllOpen : Heap → List ℕ → Type 0
AllOpen heap [] = Unit
AllOpen heap (p ∷ ps) = (closed_at (heap p) ≡ false) × AllOpen heap ps

mem-open_ones :
    (heap : Heap) (q : ℕ) (ps : List ℕ) → mem q ps ≡ false → mem q (open_ones heap ps) ≡ false
mem-open_ones heap q [] h = refl
mem-open_ones heap q (p ∷ ps) h = ground (arith, mem-open_ones heap q ps)

pub Listed-open_ones :
    (heap heap' : Heap) (next : ℕ) (ps : List ℕ)
    → ((q : ℕ) → closed_at (heap q) ≡ false → heap' q ≡ heap q)
    → Listed heap next ps
    → Listed heap' next (open_ones heap ps)
Listed-open_ones heap heap' next [] same l = tt
Listed-open_ones heap heap' next (p ∷ ps) same (lt, a, d, l) =
    elim (Bool-cases (closed_at (heap p))) [
      | inl shut ↦ rw shut (Listed-open_ones heap heap' next ps same l)
      | inr live ↦ rw live (
        lt,
        rw (same p live) a,
        mem-open_ones heap p ps d,
        Listed-open_ones heap heap' next ps same l,
      )
    ]

AllOpen-open_ones :
    (heap heap' : Heap) (ps : List ℕ)
    → ((q : ℕ) → closed_at (heap q) ≡ false → heap' q ≡ heap q)
    → AllOpen heap' (open_ones heap ps)
AllOpen-open_ones heap heap' [] same = tt
AllOpen-open_ones heap heap' (p ∷ ps) same = elim (Bool-cases (closed_at (heap p))) [
  | inl shut ↦ rw shut (AllOpen-open_ones heap heap' ps same)
  | inr live ↦ rw live (rw (same p live) live, AllOpen-open_ones heap heap' ps same)
]

pub mem-Listed : (heap : Heap) (next : ℕ) (ps : List ℕ) → Listed heap next ps → mem next ps ≡ false
mem-Listed heap next [] l = refl
mem-Listed heap next (p ∷ ps) (lt, a, d, l) = ground (arith, mem-Listed heap next ps l)

mem-append_new : (q p : ℕ) (ps : List ℕ) → mem q ps ≡ false → q < p → mem q (ps ++ (p ∷ [])) ≡ false
mem-append_new q p [] h lt = ground arith
mem-append_new q p (r ∷ ps) h lt = ground (arith, mem-append_new q p ps)

Listed-append :
    (heap : Heap) (next : ℕ) (conn : Connection) (ps : List ℕ)
    → Listed heap next ps
    → Listed (update heap next (some conn)) (suc next) (ps ++ (next ∷ []))
Listed-append heap next conn [] l = (omega arith, ground arith, refl, tt)
Listed-append heap next conn (p ∷ ps) (lt, a, d, l) =
    (omega arith, ground arith, mem-append_new p next ps d lt, Listed-append heap next conn ps l)

abbrev accepted_fd : RoundResults → Server → ℤ
accepted_fd r server = (accept_client r.accept_ret r.flags server.socket).0

pub accept_one_returns :
    (r : RoundResults) (server : Server)
    → (after : Server × Trace) × (accept_one r server ≡ some after)
unfolding accept_one Epoll.add_connection
accept_one_returns r server = elim (Option-cases (accept_one r server)) [
  | inl n ↦ absurd (ground arith)
  | inr returned ↦ returned
]

pub accept_one-IsValid :
    (r : RoundResults) (server : Server) (after : Server × Trace)
    → IsValid server
    → accept_one r server ≡ some after
    → IsValid after.0
unfolding accept_one Epoll.add_connection
accept_one-IsValid r server after v e = elim (Bool-cases (is_positive (accepted_fd r server))) [
  | inl new ↦
      let conn = new_connection (accepted_fd r server) r.garbage in
      let h : after.0.heap ≡ update server.heap server.next (some conn) = ground arith in
      let n : after.0.next ≡ suc server.next = ground arith in
      let c : after.0.connections ≡ server.connections ++ (server.next ∷ []) = ground arith in
      rw (h, n, c) (Listed-append server.heap server.next conn server.connections v)
  | inr old ↦ let same : after.0 ≡ server = ground arith in subst IsValid (sym same) v
]

-- A round of the main thread on a valid list of connections follows no dangling pointer, keeps the
-- list valid, and leaves no closed connection in it.
pub main_round-IsValid :
    (r : RoundResults) (server : Server)
    → IsValid server
    → (after : Server × Trace) × (main_round r server ≡ some after)
      × IsValid after.0
      × AllOpen after.0.heap after.0.connections
unfolding main_round
main_round-IsValid r server v =
    let (accepted, e) = accept_one_returns r server in
    let s = accepted.0 in
    let w : IsValid s = accept_one-IsValid r server accepted v e in
    let (heap', f, g) = reap_lem s.connections s.heap s.next w in
    let same : (q : ℕ) → closed_at (s.heap q) ≡ false → heap' q ≡ s.heap q =
      λ q live. ground (arith, g q, live) in
    (
      (record s { heap = heap'; connections = open_ones s.heap s.connections }, accepted.1 ++ []),
      rw e (rw f refl),
      Listed-open_ones s.heap heap' s.next s.connections same w,
      AllOpen-open_ones s.heap heap' s.connections same,
    )
