-- ===== src/Http/Server.antt =====
-- http-server-cpp/src/HttpServer.cpp: one request at a time, from its bytes to the reply, over the
-- login sessions. What the kernel, the clock, the random generator and the file system answer is an
-- `Env`; `none` is a read past the request buffer, which is undefined.
pub mod Request
pub mod Branches
pub mod Home
pub mod Login
pub mod Serve
mod Tests
use Prim.Native.String.{String}
use mathlib.Core.Option
use study_code.Prelude.{
  ◌>>=◌, ℕ, zero, suc, ◌+◌, ◌-◌, Bool, true, false, ◌||◌, Option, none, some, List, [], ◌∷◌, ◌++◌,
  length, replicate, if◌then◌else◌,
}
use study_code.Prelude.Int.{ℤ, pos, minus_one, is_negative}
use study_code.Text.{Text, utf8, find, found, c_string}
use study_code.StringMap.{lookup}
use study_code.Sys.{
  SysCall, Trace, socket, setsockopt, bind, listen, accept, recv, send, close, same_fd,
}
use study_code.Http.Cookie.{
  Cookies, parse_cookies, build_set_cookie, build_clear_cookie, default_max_age,
}
use study_code.Http.Session.{
  SessionManager, create_session, is_session_valid, get_username, destroy_session, default_timeout,
  get_instance,
}

abbrev pub buffer_size : ℕ
buffer_size = 4096

pub record Env : Type 0 where
  -- The contents of the file at a path, if it can be opened.
  pub file : Text → Option Text
  -- The clock as `generateSessionId`, `createSession` and `isSessionValid` read it.
  pub id_time : ℤ
  pub login_time : ℤ
  pub check_time : ℤ
  pub draw : ℕ → ℕ

abbrev file_or_notice : Option Text → Text
file_or_notice none = utf8 "<h1>文件未找到!</h1>"
file_or_notice (some contents) = contents

unfoldable pub read_front_end_file : Env → Text → Text
read_front_end_file env filename = file_or_notice (env.file (utf8 "web/" ++ filename))

-- What `popen` and `fgets` gave, if the command could be run.
unfoldable pub get_public_ip : Option Text → Text
get_public_ip none = utf8 "请手动查询公网IP"
get_public_ip (some []) = utf8 "请手动查询公网IP"
get_public_ip (some (c ∷ line)) = c ∷ line

-- A buffer of zeros into which `received` was read.
fill_buffer : List ℕ → List ℕ
fill_buffer received = received ++ replicate (buffer_size - length received) 0

-- `cookies["SESSIONID"]`: a missing key has the empty text.
abbrev pub cookie_or_empty : Option Text → Text
cookie_or_empty none = []
cookie_or_empty (some value) = value

-- "SESSIONID"
abbrev pub session_key : Text
session_key = b'S' ∷ b'E' ∷ b'S' ∷ b'S' ∷ b'I' ∷ b'O' ∷ b'N' ∷ b'I' ∷ b'D' ∷ []

abbrev pub html_header : Text
html_header =
    utf8 "HTTP/1.1 200 OK\r\nContent-Type: text/html; charset=utf-8\r\nConnection: close\r\n\r\n"

abbrev pub welcome_page : Text → Text
welcome_page username =
    html_header
    ++ (utf8 "<h1>Hello World! 🎉</h1><p>欢迎你，"
        ++ (username ++ utf8 "！你已经成功登录啦~</p><a href='/logout'>点击这里登出</a>"))

abbrev pub redirect_to_login : Text
redirect_to_login = utf8 "HTTP/1.1 302 Found\r\nLocation: /login.html\r\n\r\n"

abbrev pub not_found_page : Text
not_found_page =
    utf8 "HTTP/1.1 404 Not Found\r\nContent-Type: text/html; charset=utf-8\r\nConnection: close\r\n"
    ++ utf8 "\r\n<h1>404 页面不存在</h1>"

abbrev pub login_page : Env → Text
login_page env = html_header ++ read_front_end_file env (utf8 "login.html")

-- The name that every login gets.
abbrev pub test_user : Text
test_user = utf8 "test_user"

unfoldable pub login : Env → SessionManager → Text × SessionManager
login env mgr =
    let (new_session_id, mgr') =
      create_session test_user default_timeout env.id_time env.draw env.login_time mgr in
    (
      utf8 "HTTP/1.1 302 Found\r\n"
          ++ (build_set_cookie session_key new_session_id default_max_age
              ++ utf8 "Location: /\r\n\r\n"),
      mgr',
    )

unfoldable pub logout : Text → SessionManager → Text × SessionManager
logout session_id mgr = (
  utf8 "HTTP/1.1 302 Found\r\n"
      ++ (build_clear_cookie session_key ++ utf8 "Location: /login.html\r\n\r\n"),
  destroy_session session_id mgr,
)

unfoldable pub home : Env → Text → SessionManager → Text × SessionManager
home env session_id mgr =
    let (valid, mgr') = is_session_valid session_id env.check_time mgr in
    if valid then (welcome_page (get_username session_id mgr'), mgr') else (redirect_to_login, mgr')

abbrev pub mentions : String → Text → Bool
mentions pattern request = found (find (utf8 pattern) request)

-- The chain of tests of `handleClient`, and the branch that each takes.
unfoldable pub respond : Env → Text → Text → SessionManager → Text × SessionManager
unfolding login logout home
respond env request session_id mgr =
    if mentions "GET /login.html" request
    then (login_page env, mgr)
    else if mentions "POST /login" request
    then login env mgr
    else if mentions "GET /logout" request
    then logout session_id mgr
    else if mentions "GET / HTTP" request || mentions "GET /?" request
    then home env session_id mgr
    else (not_found_page, mgr)

-- `received` is what `read` put into the buffer; nothing, where it failed.
unfoldable pub handle_client : Env → ℤ → List ℕ → SessionManager → Option (SessionManager × Trace)
unfolding fill_buffer
handle_client env client_fd received mgr = do
  request ← c_string (fill_buffer received)
  cookies ← parse_cookies request
  let session_id = cookie_or_empty (lookup session_key cookies)
  let (response, mgr') = respond env request session_id mgr
  some (mgr', recv client_fd ∷ send client_fd response ∷ close client_fd ∷ [])

-- The constructor's fields.
pub record HttpServer : Type 0 where
  pub port : ℕ
  pub server_fd : ℤ

abbrev pub new_server : ℕ → HttpServer
new_server port = record { port = port; server_fd = minus_one }

-- What `socket`, `bind` and `listen` return; the result of `setsockopt` is not looked at.
pub record InitResults : Type 0 where
  pub socket_ret : ℤ
  pub bind_ret : ℤ
  pub listen_ret : ℤ

abbrev pub is_minus_one : ℤ → Bool
is_minus_one fd = same_fd fd minus_one

unfoldable pub init_socket : InitResults → HttpServer → Bool × HttpServer × Trace
init_socket r server =
    let fd = r.socket_ret in
    let server' = record server { server_fd = fd } in
    if is_minus_one fd
    then (false, server', socket ∷ [])
    else if is_negative r.bind_ret
    then (false, server', socket ∷ setsockopt fd ∷ bind fd server.port ∷ [])
    else if is_negative r.listen_ret
    then (false, server', socket ∷ setsockopt fd ∷ bind fd server.port ∷ listen fd (pos 5) ∷ [])
    else (true, server', socket ∷ setsockopt fd ∷ bind fd server.port ∷ listen fd (pos 5) ∷ [])

-- A connection that `accept` gives, what is read from it, and what its request meets.
pub record Client : Type 0 where
  pub client_fd : ℤ
  pub received : List ℕ
  pub env : Env

-- The rounds of the loop of `start` for the given connections, one after another.
unfoldable pub serve : HttpServer → List Client → SessionManager → Option (SessionManager × Trace)
serve server [] mgr = some (mgr, [])
serve server (c ∷ cs) mgr = do
  handled ← handle_client c.env c.client_fd c.received mgr
  served ← serve server cs handled.0
  some (served.0, accept server.server_fd ∷ (handled.1 ++ served.1))

unfoldable pub stop : HttpServer → Trace
stop server = if is_minus_one server.server_fd then [] else close server.server_fd ∷ []

-- `main`, up to the given number of connections; the loop of `start` itself does not end, so `stop`
-- is reached only where the initialisation fails.
unfoldable pub main : InitResults → List Client → Option Trace
unfolding init_socket serve stop
main r clients =
    let (ready, server, trace) = init_socket r (new_server 8080) in
    if ready
    then Option.map (λ s. trace ++ s.1) (serve server clients get_instance)
    else some (trace ++ stop server)
