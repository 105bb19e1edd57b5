-- ===== src/UdpServer.antt =====
-- echo_server/EchoServer.hpp and echo_server2/EchoServer.hpp: UDP servers. The first sends back what it
-- receives; the second hands it to a callback. A round of the loop is a function of what `recvfrom` gives.
pub mod Echo
pub mod Callback
mod Tests
use study_code.Prelude.{
  ℕ, ◌+◌, ◌%◌, ◌^◌, Bool, true, false, not, Option, none, some, List, [], ◌∷◌, ◌++◌, if◌then◌else◌,
  take,
}
use study_code.Prelude.Int.{ℤ, pos, minus_one, is_negative}
use study_code.Text.{Text, utf8, terminated}
use study_code.Sys.{SysCall, Trace, socket, bind, close, exit}

-- `_sockfd`, `_ip` and `_port`; `_cb` is a parameter below.
pub record UdpServer : Type 0 where
  pub sockfd : ℤ
  pub ip : Text
  pub port : ℕ

unfoldable pub new_server : ℕ → Text → UdpServer
new_server port ip = record { sockfd = minus_one; ip = ip; port = port }

-- The destructor.
unfoldable pub destroyed : UdpServer → Trace
destroyed s = close s.sockfd ∷ []

abbrev pub socket_err : ℕ
socket_err = 2

-- The macro of <endian.h>.
abbrev pub big_endian : ℕ
big_endian = 4321

-- `Init`, where `socket` and `bind` return the given values; `none`: the process exits.
unfoldable pub init : ℤ → ℤ → UdpServer → Option UdpServer × Trace
init socket_ret bind_ret s =
    if is_negative socket_ret
    then (none, socket ∷ exit socket_err ∷ [])
    else if is_negative bind_ret
    then (none, socket ∷ bind socket_ret s.port ∷ exit big_endian ∷ [])
    else (some (record s { sockfd = socket_ret }), socket ∷ bind socket_ret s.port ∷ [])

-- The second server's constructor, destructor and `Init`, which have the first one's bodies; the callback
-- stays a parameter.
unfoldable pub new_callback_server : ℕ → Text → UdpServer
unfolding new_server
new_callback_server port ip = new_server port ip

unfoldable pub callback_destroyed : UdpServer → Trace
unfolding destroyed
callback_destroyed s = destroyed s

unfoldable pub callback_init : ℤ → ℤ → UdpServer → Option UdpServer × Trace
unfolding init
callback_init socket_ret bind_ret s = init socket_ret bind_ret s

-- What the kernel hands out as the status of a process that exits with the given number.
abbrev pub status_seen : ℕ → ℕ
status_seen n = n % 2 ^ 8

-- What `recvfrom` gives: the datagram of a peer, which is at most 1023 bytes of it, or an error.
pub data Received : Type 0 where
  from : (peer : ℕ) (datagram : Text) → Received
  failed : Received

-- A datagram that the loop sends, and the calls of the callback.
pub data Out : Type 0 where
  sendto : (peer : ℕ) (bytes : Text) → Out
  calls : (word : Text) → Out
  receive_error : Out

-- A round of the first server's `Start`. An empty datagram is not positive.
unfoldable pub echo_round : Received → List Out
echo_round failed = receive_error ∷ []
echo_round (from peer []) = receive_error ∷ []
echo_round (from peer (b ∷ bs)) = sendto peer (utf8 "server echo#" ++ terminated 1023 (b ∷ bs)) ∷ []

-- A round of the second server's: the callback's result is not used.
unfoldable pub callback_round : (Text → Text) → Received → List Out
callback_round cb failed = receive_error ∷ []
callback_round cb (from peer []) = receive_error ∷ []
callback_round cb (from peer (b ∷ bs)) =
    let result = cb (terminated 1023 (b ∷ bs)) in calls (terminated 1023 (b ∷ bs)) ∷ []

unfoldable pub rounds : (Received → List Out) → List Received → List Out
rounds round [] = []
rounds round (r ∷ rs) = round r ++ rounds round rs
