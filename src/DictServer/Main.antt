-- ===== src/DictServer/Main.antt =====
-- Project_TCPServer_Plus/src/main.cpp: the main thread accepts connections and drops closed ones,
-- while the event loop's thread serves them. A step of either thread is one step on `Server`.
pub mod Reap
pub mod Safe
pub mod Threads
pub mod Process
pub mod Race
use study_code.Prelude.{
  ◌>>=◌, ℕ, suc, Bool, true, false, Option, none, some, List, [], ◌∷◌, ◌++◌, if◌then◌else◌,
}
use study_code.Prelude.Int.{ℤ, pos, is_positive}
use study_code.Sys.{Trace}
use study_code.DictServer.Connection.{Connection, new_connection}
use study_code.DictServer.Connection
use study_code.DictServer.Socket.{
  TcpSocket, new_socket, create, serve_reuse_addr, bind_port, listen_on, accept_client,
  set_non_blocking,
}
use study_code.DictServer.Reactor.{Heap, World, is_closed, update}
use study_code.DictServer.Reactor.Epoll.{EpollLoop, Event}
use study_code.DictServer.Reactor.Epoll

-- `g_connections` holds pointers; `next` is the address that the allocator gives next.
pub record Server : Type 0 where
  pub heap : Heap
  pub next : ℕ
  pub connections : List ℕ
  pub socket : TcpSocket
  pub loop : EpollLoop

-- What the calls of the start return.
pub record StartResults : Type 0 where
  pub socket_ret : ℤ
  pub reuse_ret : ℤ
  pub bind_ret : ℤ
  pub listen_ret : ℤ
  pub epoll_ret : ℤ

-- The part of `main` before its loop. No result is looked at.
unfoldable pub start : StartResults → Server × Trace
start r =
    let (s, created, trace) = create r.socket_ret new_socket in
    let trace' = serve_reuse_addr r.reuse_ret s in
    let (bound, trace'') = bind_port r.bind_ret 8080 s in
    let (listening, trace''') = listen_on r.listen_ret (pos 128) s in
    (
      record {
        heap = λ p. none;
        next = 0;
        connections = [];
        socket = s;
        loop = (Epoll.init r.epoll_ret (record { epfd = pos 0; connections = [] })).1;
      },
      trace ++ (trace' ++ (trace'' ++ trace''')),
    )

-- What the calls of one round return, and what the new connection's memory held.
pub record RoundResults : Type 0 where
  pub accept_ret : ℤ
  pub flags : ℤ
  pub epoll_ctl_ret : ℤ
  pub garbage : List ℕ

unfoldable pub accept_one : RoundResults → Server → Option (Server × Trace)
accept_one r server =
    let (client_fd, trace) = accept_client r.accept_ret r.flags server.socket in
    let p = server.next in
    let heap = update server.heap p (some (new_connection client_fd r.garbage)) in
    if is_positive client_fd
    then (do
      added ← Epoll.add_connection r.epoll_ctl_ret (some p) heap server.loop
      some (
        record server {
          heap = heap;
          next = suc p;
          connections = server.connections ++ (p ∷ []);
          loop = added.1;
        },
        trace ++ set_non_blocking r.flags client_fd,
      ))
    else some (server, trace)

-- The pointers kept, the heap and the calls of the loop that erases closed connections; the last
-- owner of an erased connection destroys it.
unfoldable pub reap : List ℕ → Heap → Option (List ℕ × Heap × Trace)
reap [] heap = some ([], heap, [])
reap (p ∷ ps) heap = do
  conn ← heap p
  let dropped = reap ps (update heap p none)
  let kept = reap ps heap
  if is_closed conn.status
      then (do rest ← dropped; some (rest.0, rest.1, Connection.destroy conn ++ rest.2))
      else (do rest ← kept; some (p ∷ rest.0, rest.1, rest.2))

unfoldable pub main_round : RoundResults → Server → Option (Server × Trace)
unfolding accept_one reap
main_round r server = do
  accepted ← accept_one r server
  reaped ← reap accepted.0.connections accepted.0.heap
  some (record (accepted.0) { heap = reaped.1; connections = reaped.0 }, accepted.1 ++ reaped.2)

-- A step of the event loop's thread.
unfoldable pub loop_round : World → ℤ → List Event → Server → Option (Server × Trace)
loop_round world eventnum events server = do
  after ← Epoll.round world eventnum events server.heap
  some (record server { heap = after.0 }, after.1)
