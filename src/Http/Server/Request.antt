-- ===== src/Http/Server/Request.antt =====
-- How a request is routed and answered.
use study_code.Prelude.{
  ℕ, ◌-◌, ◌<◌, ◌≡◌, refl, true, none, some, List, [], ◌∷◌, append-nil, arith, length,
}
use study_code.Prelude.Int.{ℤ}
use study_code.Text.{Text, c_string}
use study_code.Text.Split.{lacks}
use study_code.Text.Buffer.{c_string-fill, c_string-fill_eq, c_string-lacks}
use study_code.StringMap.{lookup}
use study_code.Sys.{recv, send, close}
use study_code.Http.Cookie.{Cookies, parse_cookies}
use study_code.Http.Cookie.Parse.{parse_cookies-total}
use study_code.Http.Session.{SessionManager}
use study_code.Http.Server.{
  Env, buffer_size, cookie_or_empty, fill_buffer, session_key, respond, handle_client,
}

-- A request that leaves room in the buffer is always answered: its descriptor is read, one reply
-- is sent to it, it is closed, and no other call is made.
pub handle_client_answers :
    (env : Env) (client_fd : ℤ) (received : List ℕ) (mgr : SessionManager)
    → length received < buffer_size
    → (response : Text) × (mgr' : SessionManager) × (handle_client env client_fd received mgr
        ≡ some (mgr', recv client_fd ∷ send client_fd response ∷ close client_fd ∷ []))
unfolding handle_client
handle_client_answers env client_fd received mgr h =
    let (request, f) = c_string-fill received (buffer_size - length received) (omega arith) in
    let (cookies, g) = parse_cookies-total request in
    let answer = respond env request (cookie_or_empty (lookup session_key cookies)) mgr in
    (answer.0, answer.1, rw f (rw g refl))

-- A request that fills the buffer with no NUL in it is read past the buffer's end.
pub handle_client_overrun :
    (env : Env) (client_fd : ℤ) (received : List ℕ) (mgr : SessionManager)
    → length received ≡ buffer_size
    → lacks 0 received ≡ true
    → handle_client env client_fd received mgr ≡ none
unfolding handle_client
handle_client_overrun env client_fd received mgr full h =
    let e : buffer_size - length received ≡ 0 = omega arith in
    rw e (rw (append-nil received) (rw (c_string-lacks received h) refl))

-- The bytes of a request that has no NUL and leaves room in the buffer are its text.
c_string-eq :
    (request : Text)
    → lacks 0 request ≡ true
    → length request < buffer_size
    → c_string (fill_buffer request) ≡ some request
unfolding fill_buffer
c_string-eq request h small =
    c_string-fill_eq request (buffer_size - length request) h (omega arith)

-- What is sent for a request whose bytes are text, whose cookies are known.
pub handle_client-respond :
    (env : Env) (client_fd : ℤ) (request : Text) (cookies : Cookies) (mgr : SessionManager)
    → lacks 0 request ≡ true
    → length request < buffer_size
    → parse_cookies request ≡ some cookies
    → let answer = respond env request (cookie_or_empty (lookup session_key cookies)) mgr in
      handle_client env client_fd request mgr
      ≡ some (answer.1, recv client_fd ∷ send client_fd answer.0 ∷ close client_fd ∷ [])
unfolding handle_client
handle_client-respond env client_fd request cookies mgr h small e =
    rw (c_string-eq request h small) (rw e refl)
