-- ===== src/NetCal.antt =====
-- NetCal/Socket.hpp, TcpServer.hpp and InetAddr.hpp: a listening socket, its connections, and addresses.
pub mod Server
pub mod Address
use study_code.Prelude.{
  length, ℕ, ◌%◌, ◌^◌, Bool, true, false, not, ◌&&◌, Option, none, some, List, [], ◌∷◌, ◌++◌, ◌==◌,
  if◌then◌else◌, take, ◌+◌,
}
use study_code.Prelude.Int.{ℤ, pos, minus_one, is_negative, is_zero}
use study_code.Text.{Text, utf8, terminated, text_eq}
use study_code.Text.Decimal.{to_string}
use study_code.Sys.{SysCall, Trace, socket, bind, listen, accept, recv, send, exit}

-- `_sockfd`, which is 0 in a `TcpSocket` that the constructor without arguments makes. Neither
-- destructor does anything.
pub record TcpSocket : Type 0 where
  pub sockfd : ℤ

-- `SOCKET_ERR`, `BIND_ERR` and `LISTEN_ERR`.
abbrev pub socket_err : ℕ
socket_err = 1

abbrev pub bind_err : ℕ
bind_err = 2

abbrev pub listen_err : ℕ
listen_err = 3

-- A step that may end the process.
unfoldable pub create_socket_or_die : ℤ → TcpSocket → Option TcpSocket × Trace
create_socket_or_die ret s =
    if is_negative ret
    then (none, socket ∷ exit socket_err ∷ [])
    else (some (record s { sockfd = ret }), socket ∷ [])

unfoldable pub bind_socket_or_die : ℕ → ℤ → TcpSocket → Option TcpSocket × Trace
bind_socket_or_die port ret s =
    if not (is_zero ret)
    then (none, bind s.sockfd port ∷ exit bind_err ∷ [])
    else (some s, bind s.sockfd port ∷ [])

unfoldable pub listen_socket_or_die : ℤ → TcpSocket → Option TcpSocket × Trace
listen_socket_or_die ret s =
    if not (is_zero ret)
    then (none, listen s.sockfd (pos 16) ∷ exit listen_err ∷ [])
    else (some s, listen s.sockfd (pos 16) ∷ [])

-- One member behind another, where the process still runs.
abbrev pub and_then :
    Option TcpSocket × Trace → (TcpSocket → Option TcpSocket × Trace) → Option TcpSocket × Trace
and_then (none, t) k = (none, t)
and_then (some s, t) k = let r = k s in (r.0, t ++ r.1)

-- What `socket`, `bind` and `listen` return.
pub record Setup : Type 0 where
  pub socket_ret : ℤ
  pub bind_ret : ℤ
  pub listen_ret : ℤ

unfoldable pub build_tcp_socket_method : ℕ → Setup → TcpSocket → Option TcpSocket × Trace
unfolding create_socket_or_die bind_socket_or_die listen_socket_or_die
build_tcp_socket_method port r s =
    and_then (and_then (create_socket_or_die r.socket_ret s) (bind_socket_or_die port r.bind_ret))
      (listen_socket_or_die r.listen_ret)

-- The constructor of `TcpServer`, whose `_listensock` has descriptor 0 at first.
unfoldable pub new_server : ℕ → Setup → Option TcpSocket × Trace
unfolding build_tcp_socket_method
new_server port r = build_tcp_socket_method port r (record { sockfd = pos 0 })

-- `_ip` and `_port`; `_address` holds the same in the form of the system calls.
pub record InetAddr : Type 0 where
  pub ip : Text
  pub port : ℕ

-- `Accept`, where `accept` returns `ret` and the peer: the new socket or a null pointer, and the address
-- behind the reference.
unfoldable pub accept_socket :
    ℤ → InetAddr → TcpSocket → InetAddr → Option TcpSocket × InetAddr × Trace
accept_socket ret peer s clientaddr =
    if is_negative ret
    then (none, clientaddr, accept s.sockfd ∷ [])
    else (some (record { sockfd = ret }), peer, accept s.sockfd ∷ [])

-- Rounds of `Loop`, each with a new `clientaddr`, of which nothing is read before `Accept` sets it. A
-- round's socket goes out of scope at its end, where its destructor does nothing.
unfoldable pub loop : List (ℤ × InetAddr) → InetAddr → TcpSocket → Trace
unfolding accept_socket
loop [] clientaddr s = []
loop ((ret, peer) ∷ rounds) clientaddr s =
    let (sockfd, addr, trace) = accept_socket ret peer s clientaddr in
    trace ++ loop rounds clientaddr s

-- What `recv` gives: bytes, at most 1023 of them, the end of the stream, or an error.
pub data Received : Type 0 where
  got : (bytes : Text) → Received
  failed : Received

-- `Rec`: what it returns, and the string behind its pointer, to which the bytes are appended.
unfoldable pub rec : TcpSocket → Received → Text → ℤ × Text × Trace
rec s failed out = (minus_one, out, recv s.sockfd ∷ [])
rec s (got []) out = (pos 0, out, recv s.sockfd ∷ [])
rec s (got (b ∷ bs)) out =
    (pos (length (take 1023 (b ∷ bs))), out ++ terminated 1023 (b ∷ bs), recv s.sockfd ∷ [])

-- `Send`, where `send` returns `ret`.
unfoldable pub send_text : TcpSocket → Text → ℤ → ℤ × Trace
send_text s in_text ret = (ret, send s.sockfd in_text ∷ [])

-- `Rec` several times into one string.
unfoldable pub rec_all : TcpSocket → List Received → Text → Text
unfolding rec
rec_all s [] out = out
rec_all s (r ∷ rs) out = let (n, out', trace) = rec s r out in rec_all s rs out'

unfoldable pub inet_addr_eq : InetAddr → InetAddr → Bool
inet_addr_eq a b = text_eq a.ip b.ip && (a.port == b.port)

-- `ToString`
unfoldable pub inet_addr_to_string : InetAddr → Text
inet_addr_to_string a = b'[' ∷ (a.ip ++ (b':' ∷ (to_string (pos a.port) ++ (b']' ∷ []))))
