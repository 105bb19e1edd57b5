-- ===== src/DictServer/Main/Process/Visits.antt =====
-- EpollLoop.cpp and Connection.cpp: what the body for one event does to its connection.
use study_code.Prelude.{
  ℕ, ◌≡◌, refl, subst, ◌==◌, Bool, true, false, some, [], ◌∷◌, arith, ◌||◌, ◌&&◌, not, inl, inr,
  Option-cases, Bool-cases,
}
use study_code.Prelude.Int.{ℤ, is_positive}
use study_code.Text.{Text}
use study_code.Sys.{Trace, same_fd_refl}
use study_code.DictServer.Utils.{closefd}
use study_code.DictServer.Connection.{Connection, Io, close_connection, send_data, read_data}
use study_code.DictServer.Reactor.{Heap, World, is_closed, read_at}
use study_code.DictServer.Reactor.Epoll
use study_code.DictServer.Main.Process.{has_close, at_close}

abbrev pub is_empty : Trace → Bool
is_empty [] = true
is_empty (call ∷ trace) = false

-- The descriptor is kept; and the trace ends with its `close`, or has none and the connection is open.
abbrev pub Closes : Connection → Connection → Trace → Type 0
Closes conn conn' trace =
    let behind = (at_close trace).1 in
    (conn'.client_fd ≡ conn.client_fd)
    × (is_positive conn.client_fd ≡ true
        → (has_close conn.client_fd behind || (is_empty behind && not (is_closed conn'.status)))
          ≡ true)

close_connection-Closes :
    (conn : Connection)
    → is_closed conn.status ≡ false
    → Closes conn (close_connection conn).0 (close_connection conn).1
unfolding close_connection closefd
close_connection-Closes conn k =
    (ground (arith, k), λ h. ground (arith, h, k, same_fd_refl conn.client_fd))

send_data-Closes :
    (ret : ℤ) (msg : Text) (conn : Connection)
    → is_closed conn.status ≡ false
    → Closes conn (send_data ret msg conn).0 (send_data ret msg conn).1
unfolding send_data close_connection closefd
send_data-Closes ret msg conn k =
    (ground (arith, k), λ h. ground (arith, h, k, same_fd_refl conn.client_fd))

read_data-Closes :
    (io : Io) (conn : Connection) (after : Connection × Trace)
    → is_closed conn.status ≡ false
    → read_data io conn ≡ some after
    → Closes conn after.0 after.1
unfolding read_data send_data close_connection closefd
read_data-Closes io conn after k e =
    (ground (arith, k, e), λ h. ground (arith, h, k, e, same_fd_refl conn.client_fd))

-- The body for an event of an open connection.
pub visit_one-Closes :
    (world : World) (p : ℕ) (input : Bool) (heap : Heap) (conn : Connection) (after : Heap × Trace)
    → heap p ≡ some conn
    → is_closed conn.status ≡ false
    → Epoll.visit_one world (some p, input) heap ≡ some after
    → (conn' : Connection) × (after.0 p ≡ some conn') × Closes conn conn' after.1
unfolding Epoll.visit_one read_at
visit_one-Closes world p input heap conn after c k e = elim (Bool-cases input) [
  | inl got ↦ elim (Option-cases (read_data (world conn.client_fd) conn)) [
    | inl n ↦ absurd (ground (arith, n, c, k, got, e))
    | inr (read, f) ↦
        let same_conn : after.0 p ≡ some read.0 = ground (arith, c, k, got, f, e) in
        let same_trace : read.1 ≡ after.1 = ground (arith, c, k, got, f, e) in
        (
          read.0,
          same_conn,
          subst (Closes conn read.0) same_trace
              (read_data-Closes (world conn.client_fd) conn read k f),
        )
  ]
  | inr nothing ↦
      let same_conn : after.0 p ≡ some conn = ground (arith, c, k, nothing, e) in
      let same_trace : [] ≡ after.1 = ground (arith, c, k, nothing, e) in
      (conn, same_conn, subst (Closes conn conn) same_trace (refl, λ h. ground (arith, k)))
]

pub visit_one-other :
    (world : World) (p q : ℕ) (input : Bool) (heap : Heap) (after : Heap × Trace)
    → (p == q) ≡ false
    → Epoll.visit_one world (some p, input) heap ≡ some after
    → after.0 q ≡ heap q
unfolding Epoll.visit_one read_at
visit_one-other world p q input heap after d e = elim (Option-cases (heap p)) [
  | inl n ↦ absurd (ground (arith, n))
  | inr (conn, c) ↦ elim (Option-cases (read_data (world conn.client_fd) conn)) [
    | inl n ↦ ground (arith, n, c)
    | inr (read, f) ↦ ground (arith, c, f)
  ]
]
