-- ===== src/TcpClient.antt =====
-- TCP2fork/tcp_client.cpp, which TCP3pthread/tcp_client.cpp repeats: a client that sends one message and
-- shows the answer.
pub mod Closings
pub mod Answers
pub mod Exchange
pub mod Interactive
use study_code.Prelude.{
  ℕ, ◌-◌, Bool, true, false, not, Option, none, some, List, [], ◌∷◌, ◌++◌, if◌then◌else◌, length,
  take, replicate,
}
use study_code.Prelude.Int.{ℤ, pos, is_negative, is_positive}
use study_code.Text.{Text, utf8, c_string}
use study_code.Sys.{SysCall, Trace, socket, connect, recv, send, close, exit}

-- What `socket`, `inet_pton` and `connect` return.
pub record Setup : Type 0 where
  pub socket_ret : ℤ
  pub inet_pton_ret : ℤ
  pub connect_ret : ℤ

-- The constructor: `sock_fd`, unless the process exits.
unfoldable pub new_client : Setup → Option ℤ × Trace
new_client r =
    if is_negative r.socket_ret
    then (none, socket ∷ exit 1 ∷ [])
    else if not (is_positive r.inet_pton_ret)
    then (none, socket ∷ close r.socket_ret ∷ exit 1 ∷ [])
    else if is_negative r.connect_ret
    then (none, socket ∷ connect r.socket_ret ∷ close r.socket_ret ∷ exit 1 ∷ [])
    else (some r.socket_ret, socket ∷ connect r.socket_ret ∷ [])

-- What `read` gives: some bytes, at most 1024 of them, the end of the stream, or an error.
pub data Reply : Type 0 where
  bytes : (s : Text) → Reply
  failed : Reply

-- What `conmmunicate` tells the user; `unterminated` is the printing of a buffer without a NUL.
pub data Shown : Type 0 where
  received : (text : Text) (valread : ℕ) → Shown
  unterminated disconnected read_failed : Shown

-- The zeroed `buffer` of 1024 bytes behind `read`, printed as a C string.
abbrev pub shown_text : Option Text → ℕ → Shown
shown_text none valread = unterminated
shown_text (some s) valread = received s valread

unfoldable pub shown_got : Text → Shown
shown_got got = shown_text (c_string (got ++ replicate (1024 - length got) 0)) (length got)

unfoldable pub show_reply : Reply → Shown
unfolding shown_got
show_reply failed = read_failed
show_reply (bytes []) = disconnected
show_reply (bytes (b ∷ bs)) = shown_got (take 1024 (b ∷ bs))

unfoldable pub conmmunicate : ℤ → Text → Reply → Shown × Trace
unfolding show_reply
conmmunicate sock_fd message reply = (show_reply reply, send sock_fd message ∷ recv sock_fd ∷ [])

main_with : Option ℤ × Trace → Reply → List Shown × Trace
main_with (none, t) reply = ([], t)
main_with (some sock_fd, t) reply =
    let r = conmmunicate sock_fd (utf8 "Hello from Client") reply in
    (r.0 ∷ [], t ++ (r.1 ++ (close sock_fd ∷ [])))

-- `main`, the destructor at its end.
unfoldable pub main : Setup → Reply → List Shown × Trace
unfolding new_client conmmunicate main_with
main r reply = main_with (new_client r) reply
