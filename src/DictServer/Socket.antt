-- ===== src/DictServer/Socket.antt =====
-- Project_TCPServer_Plus/src/net/TcpSocket.cpp: the listening socket. Each method takes what its
-- system calls return and gives the new state, its result and the calls made.
use Prim.Native.Nat.{bit_and, bit_or}
use study_code.Prelude.{ℕ, ◌-◌, Bool, [], ◌∷◌, if◌then◌else◌}
use study_code.Prelude.Int.{ℤ, pos, negsuc, minus_one, is_zero}
use study_code.Sys.{SysCall, Trace, setsockopt, bind, listen, accept, get_flags, set_flags}
use study_code.DictServer.Utils.{check_error, closefd}

pub record TcpSocket : Type 0 where
  pub listen_fd : ℤ

abbrev pub new_socket : TcpSocket
new_socket = record { listen_fd = minus_one }

unfoldable pub create : ℤ → TcpSocket → TcpSocket × Bool × Trace
create socket_ret s =
    (record { listen_fd = socket_ret }, check_error socket_ret, SysCall.socket ∷ [])

unfoldable pub serve_reuse_addr : ℤ → TcpSocket → Trace
serve_reuse_addr ret s = setsockopt s.listen_fd ∷ []

unfoldable pub bind_port : ℤ → ℕ → TcpSocket → Bool × Trace
bind_port ret port s = (check_error ret, bind s.listen_fd port ∷ [])

unfoldable pub listen_on : ℤ → ℤ → TcpSocket → Bool × Trace
listen_on ret backlog s = (is_zero ret, listen s.listen_fd backlog ∷ [])

-- O_NONBLOCK
abbrev nonblock : ℕ
nonblock = 2048

-- `flags | O_NONBLOCK` on two's complement integers
unfoldable pub or_nonblock : ℤ → ℤ
or_nonblock (pos n) = pos (bit_or n nonblock)
or_nonblock (negsuc n) = negsuc (n - bit_and n nonblock)

-- `flags` is what `F_GETFL` returns; a failure is logged and the flags are set all the same.
unfoldable pub set_non_blocking : ℤ → ℤ → Trace
set_non_blocking flags fd = get_flags fd ∷ set_flags fd (or_nonblock flags) ∷ []

-- The descriptor of the new connection, or -1.
unfoldable pub accept_client : ℤ → ℤ → TcpSocket → ℤ × Trace
accept_client accept_ret flags s = (
  (if check_error accept_ret then accept_ret else minus_one),
  accept s.listen_fd ∷ set_non_blocking flags accept_ret,
)

unfoldable pub destroy : TcpSocket → Trace
destroy s = closefd s.listen_fd
