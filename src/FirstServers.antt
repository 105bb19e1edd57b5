-- ===== src/FirstServers.antt =====
-- UDP1 and TCP1, the first servers and clients: one `main` each. What the calls return are arguments, and
-- `none` prints a buffer that has no NUL past its end.
pub mod Datagrams
pub mod Connection
mod Tests
use study_code.Prelude.{
  ◌>>=◌, ℕ, Bool, true, false, not, Option, none, some, List, [], ◌∷◌, ◌++◌, length, take, drop,
  replicate, if◌then◌else◌,
}
use study_code.Prelude.Int.{ℤ, pos, minus_one, is_negative, is_zero, is_positive}
use study_code.Text.{Text, utf8, c_string}
use study_code.Sys.{
  SysCall, Trace, socket, setsockopt, bind, listen, accept, connect, recv, send, close, exit,
}

-- `BUFFER_SIZE`
abbrev pub buffer_size : ℕ
buffer_size = 1024

-- The buffer behind its declaration and behind `memset`.
unfoldable pub cleared : List ℕ
cleared = replicate buffer_size 0

-- What a call received, in the front of the buffer.
abbrev pub filled : Text → List ℕ → List ℕ
filled got buffer = take buffer_size got ++ drop (length (take buffer_size got)) buffer

-- What `recvfrom` gives, at most `buffer_size` bytes of it, or an error.
pub data Received : Type 0 where
  from : (peer : ℕ) (datagram : Text) → Received
  failed : Received

-- What the UDP programs print of a buffer, the datagrams that they send, and the end.
pub data Out : Type 0 where
  shows : (text : Text) → Out
  sendto : (peer : ℕ) (bytes : Text) → Out
  exits : (status : ℕ) → Out

abbrev pub udp_response : Text
unfolding utf8
udp_response = utf8 "server have accepted your message"

-- UDP1's loop; where no reception is left it waits.
unfoldable pub udp_serve : List Received → List ℕ → Option (List Out)
unfolding c_string
udp_serve [] buffer = some []
udp_serve (failed ∷ rs) buffer = some (exits 1 ∷ [])
udp_serve (from peer datagram ∷ rs) buffer = do
  text ← c_string (filled datagram buffer)
  rest ← udp_serve rs cleared
  some (shows text ∷ sendto peer udp_response ∷ rest)

-- UDP1's `main`: `socket` is tested for 0 only.
unfoldable pub udp_server : ℤ → ℤ → List Received → Option (List Out)
unfolding udp_serve
udp_server socket_ret bind_ret rs =
    if is_zero socket_ret
    then some (exits 1 ∷ [])
    else if is_negative bind_ret
    then some (exits 1 ∷ [])
    else udp_serve rs cleared

abbrev pub udp_message : Text
unfolding utf8
udp_message = utf8 "hi UDP server"

abbrev pub answered : Received → Option (List Out)
answered failed = some (exits 1 ∷ [])
answered (from peer datagram) = do text ← c_string (filled datagram cleared); some (shows text ∷ [])

-- UDP1's client, which sends to the peer 0.
unfoldable pub udp_client : ℤ → ℤ → Received → Option (List Out)
udp_client socket_ret inet_pton_ret r =
    if is_zero socket_ret
    then some (exits 1 ∷ [])
    else if not (is_positive inet_pton_ret)
    then some (exits 1 ∷ [])
    else do shown ← answered r; some (sendto 0 udp_message ∷ shown)

-- What the calls of TCP1's programs return.
pub record Setup : Type 0 where
  pub socket_ret : ℤ
  pub setsockopt_ret : ℤ
  pub bind_ret : ℤ
  pub listen_ret : ℤ
  pub accept_ret : ℤ

-- The text that is printed, unless the program ends before, and the calls.
abbrev pub Shown : Type 0
Shown = Option Text × Trace

abbrev pub tcp_response : Text
unfolding utf8
tcp_response = utf8 "hi from TCP server"

-- TCP1's server; `got` is what `read` puts into the buffer, nothing where it fails.
unfoldable pub tcp_server : Setup → Text → Option Shown
unfolding c_string
tcp_server r got =
    let fd = r.socket_ret in
    if is_zero fd
    then some (none, socket ∷ exit 1 ∷ [])
    else if not (is_zero r.setsockopt_ret)
    then some (none, socket ∷ setsockopt fd ∷ exit 1 ∷ [])
    else if is_negative r.bind_ret
    then some (none, socket ∷ setsockopt fd ∷ bind fd 8080 ∷ exit 1 ∷ [])
    else if is_negative r.listen_ret
    then some (none, socket ∷ setsockopt fd ∷ bind fd 8080 ∷ listen fd (pos 3) ∷ exit 1 ∷ [])
    else if is_negative r.accept_ret
    then some
        (none, socket ∷ setsockopt fd ∷ bind fd 8080 ∷ listen fd (pos 3) ∷ accept fd ∷ exit 1 ∷ [])
    else do
      text ← c_string (filled got cleared)
      some (
        some text,
        socket
            ∷ setsockopt fd
            ∷ bind fd 8080
            ∷ listen fd (pos 3)
            ∷ accept fd
            ∷ recv r.accept_ret
            ∷ send r.accept_ret tcp_response
            ∷ close r.accept_ret
            ∷ close fd
            ∷ [],
      )

abbrev pub tcp_request : Text
unfolding utf8
tcp_request = utf8 "Hello from TCP client"

-- TCP1's client. Where it returns -1 the process ends with the status 255.
unfoldable pub tcp_client : ℤ → ℤ → ℤ → Text → Option Shown
unfolding c_string
tcp_client sock inet_pton_ret connect_ret got =
    if not (is_positive sock)
    then some (none, socket ∷ exit 255 ∷ [])
    else if not (is_positive inet_pton_ret)
    then some (none, socket ∷ exit 255 ∷ [])
    else if is_negative connect_ret
    then some (none, socket ∷ connect sock ∷ exit 255 ∷ [])
    else do
      text ← c_string (filled got cleared)
      some (some text, socket ∷ connect sock ∷ send sock tcp_request ∷ recv sock ∷ close sock ∷ [])
