-- ===== src/DictServer/Connection.antt =====
-- Project_TCPServer_Plus/src/connection: one client's connection and the word service. A method
-- takes what the kernel answers and gives the new state and the calls made; `none` is a string read
-- past the buffer. Log lines are not part of the trace.
pub mod Life
pub mod Quiet
pub mod Translate
use study_code.Prelude.{
  ℕ, zero, suc, ◌+◌, ◌-◌, Bool, true, false, ◌&&◌, Option, none, some, List, [], ◌∷◌, ◌++◌, map,
  length, leb, replicate, if◌then◌else◌,
}
use study_code.Prelude.Int.{ℤ, pos, minus_one, is_positive}
use study_code.Text.{Text, utf8, c_string}
use study_code.Text.Trim.{trim_back}
use study_code.StringMap.{StringMap, lookup}
use study_code.Sys.{SysCall, Trace, recv, send, close, same_fd}
use study_code.DictServer.Utils.{closefd}

pub data ConnStatus : Type 0 where
  connected closed : ConnStatus

pub record Connection : Type 0 where
  pub client_fd : ℤ
  pub status : ConnStatus
  pub buffer : List ℕ

abbrev pub buffer_size : ℕ
buffer_size = 1024

unfoldable pub dict : StringMap Text
dict =
    (utf8 "hello", utf8 "你好")
    ∷ (utf8 "world", utf8 "世界")
    ∷ (utf8 "server", utf8 "服务器")
    ∷ (utf8 "exit", utf8 "已断开连接")
    ∷ (utf8 "bye", utf8 "再见")
    ∷ []

-- The constructor, over memory that holds anything.
abbrev pub new_connection : ℤ → List ℕ → Connection
new_connection fd garbage = record { client_fd = fd; status = connected; buffer = garbage }

-- What `recv` returns and what it puts into the buffer, and what `send` returns.
pub record Io : Type 0 where
  pub recv_ret : ℤ
  pub received : List ℕ
  pub send_ret : ℤ

-- `tolower` of the "C" locale
abbrev pub lower_byte : ℕ → ℕ
lower_byte c = if leb b'A' c && leb c b'Z' then c + 32 else c

unfoldable pub to_lower : Text → Text
to_lower s = map lower_byte s

-- " \n\r\t"
abbrev pub blanks : Text
blanks = b' ' ∷ b'\n' ∷ b'\r' ∷ b'\t' ∷ []

close_with : ConnStatus → Connection → Connection × Trace
close_with closed conn = (conn, [])
close_with connected conn = (record conn { status = closed }, closefd conn.client_fd)

unfoldable pub close_connection : Connection → Connection × Trace
unfolding close_with
close_connection conn = close_with conn.status conn

send_with : ConnStatus → ℤ → Text → Connection → Connection × Trace
unfolding close_connection
send_with closed ret msg conn = (conn, [])
send_with connected ret msg conn =
    let (conn', trace) = close_connection conn in
    if same_fd ret minus_one
    then (conn', send conn.client_fd msg ∷ trace)
    else (conn, send conn.client_fd msg ∷ [])

unfoldable pub send_data : ℤ → Text → Connection → Connection × Trace
unfolding send_with
send_data ret msg conn = send_with conn.status ret msg conn

pub translation_or_notice : Option Text → Text
translation_or_notice none = utf8 "未找到该词条，请重试"
translation_or_notice (some response) = response

-- The reply to what stands in the buffer.
unfoldable pub translate : Text → Text
unfolding translation_or_notice
translate input = translation_or_notice (lookup (to_lower (trim_back blanks input)) dict)

-- `memset`, and what `recv` writes over it.
abbrev pub fill_buffer : List ℕ → List ℕ
fill_buffer received = received ++ replicate (buffer_size - length received) 0

reply_to : Option Text → Io → Connection → Option (Connection × Trace)
unfolding send_data
reply_to none io conn = none
reply_to (some input) io conn =
    let (conn', trace) = send_data io.send_ret (translate input ++ (b'\n' ∷ [])) conn in
    some (conn', recv conn.client_fd ∷ trace)

read_with : ConnStatus → Io → Connection → Option (Connection × Trace)
unfolding reply_to close_connection
read_with closed io conn = some (conn, [])
read_with connected io conn =
    let cleared = record conn { buffer = fill_buffer [] } in
    let filled = record conn { buffer = fill_buffer io.received } in
    let (conn', trace) = close_connection cleared in
    if is_positive io.recv_ret
    then reply_to (c_string filled.buffer) io filled
    else some (conn', recv conn.client_fd ∷ trace)

unfoldable pub read_data : Io → Connection → Option (Connection × Trace)
unfolding read_with
read_data io conn = read_with conn.status io conn

-- The destructor.
unfoldable pub destroy : Connection → Trace
unfolding close_connection
destroy conn = (close_connection conn).1
