-- ===== src/Http/Server/Home.antt =====
-- HttpServer.cpp: the requests for the home page that carry a session id, and their answer.
use study_code.Prelude.{
  List, ◌||◌, ◌^◌, ℕ, ◌<◌, ◌≡◌, refl, ◌∙◌, true, false, some, [], ◌∷◌, ◌++◌, arith, length,
}
use study_code.Prelude.Int.{ℤ}
use study_code.Text.{Text, utf8, find}
use study_code.Text.Search.{text_eq_refl, FirstAfter}
use study_code.Text.Split.{lacks, lacks-append, find-lacks_all, ends_outside-lacks}
use study_code.StringMap.{lookup, insert}
use study_code.Sys.{recv, send, close}
use study_code.Http.Cookie.{parse_cookies, crlf, cookie_field}
use study_code.Http.Cookie.Parse.{with_cookie_line}
use study_code.Http.Cookie.Render.{render, IsPlain, AllPlain, store_all, parse_cookies-render}
use study_code.Http.Session.{SessionManager, generate_session_id}
use study_code.Http.Session.Id.{IsDraw, generate_session_id-lacks}
use study_code.Http.Session.Laws.{user_at}
use study_code.Http.Server.{Env, buffer_size, session_key, home, mentions, respond, handle_client}
use study_code.Http.Server.Request.{handle_client-respond}
use study_code.Http.Server.Branches.{home_page, home-user_at}

-- A request for the home page that carries a session id: its first "Cookie:" line renders plain
-- cookies, of which the last named "SESSIONID" is the id; it fits the buffer, has no NUL, and takes
-- the home page's branch. What stands before and behind the line is free.
pub record HomeRequest (session_id request : Text) : Type 0 where
  pub pre : Text
  pub post : Text
  pub first : Text × Text
  pub others : List (Text × Text)
  pub bytes : request ≡ with_cookie_line pre (b' ' ∷ render (first ∷ others)) post
  pub first_field : FirstAfter cookie_field pre
  pub plain : AllPlain (first ∷ others)
  pub session : lookup session_key (store_all (first ∷ others) []) ≡ some session_id
  pub fits : length request < buffer_size
  pub nul : lacks 0 request ≡ true
  pub no_login_page : mentions "GET /login.html" request ≡ false
  pub no_login : mentions "POST /login" request ≡ false
  pub no_logout : mentions "GET /logout" request ≡ false
  pub is_home : (mentions "GET / HTTP" request || mentions "GET /?" request) ≡ true

-- The home page shows a browser the user that its cookie stands for, and sends it to the login
-- where it stands for none.
pub HomeRequest-answer :
    (env : Env) (client_fd : ℤ) (session_id request : Text) (mgr : SessionManager)
    → HomeRequest session_id request
    → (mgr' : SessionManager) × (handle_client env client_fd request mgr
        ≡ some (
          mgr',
          recv client_fd
              ∷ send client_fd (home_page (user_at mgr env.check_time session_id))
              ∷ close client_fd
              ∷ [],
        ))
unfolding respond
HomeRequest-answer env client_fd session_id request mgr h =
    let small : length (with_cookie_line h.pre (b' ' ∷ render (h.first ∷ h.others)) h.post)
        < 2 ^ 64 =
      rw (← h.bytes) (let fits = h.fits in omega (arith, fits)) in
    let cookies : parse_cookies request ≡ some (store_all (h.first ∷ h.others) []) =
      rw h.bytes (parse_cookies-render h.pre h.post h.first h.others h.first_field h.plain small) in
    (
      (home env session_id mgr).1,
      handle_client-respond env client_fd request (store_all (h.first ∷ h.others) []) mgr h.nul
            h.fits cookies
          ∙ rw h.session (
              rw h.no_login_page (
                rw h.no_login
                  (rw h.no_logout (rw h.is_home (rw (home-user_at env session_id mgr) refl))))),
    )

-- The request for the home page that a browser with the cookie makes.
abbrev pub home_request : Text → Text
home_request session_id =
    with_cookie_line (utf8 "GET / HTTP/1.1\r\n") (b' ' ∷ render ((session_key, session_id) ∷ []))
      crlf

-- A session id that is a plain cookie value and looks like no route.
pub record IsToken (session_id : Text) : Type 0 where
  pub semicolon : lacks b';' session_id ≡ true
  pub cr : lacks b'\r' session_id ≡ true
  pub space : lacks b' ' session_id ≡ true
  pub nul : lacks 0 session_id ≡ true
  pub get : lacks b'G' session_id ≡ true
  pub post : lacks b'P' session_id ≡ true

pub generate_session_id-IsToken :
    (now : ℤ) (draw : ℕ → ℕ) → IsDraw draw → IsToken (generate_session_id now draw)
generate_session_id-IsToken now draw h = record {
  semicolon = generate_session_id-lacks now draw b';' h refl;
  cr = generate_session_id-lacks now draw b'\r' h refl;
  space = generate_session_id-lacks now draw b' ' h refl;
  nul = generate_session_id-lacks now draw 0 h refl;
  get = generate_session_id-lacks now draw b'G' h refl;
  post = generate_session_id-lacks now draw b'P' h refl;
}

IsToken-IsPlain : (session_id : Text) → IsToken session_id → IsPlain (session_key, session_id)
IsToken-IsPlain session_id t = record {
  name = refl;
  name_semicolon = refl;
  value_semicolon = t.semicolon;
  name_cr = refl;
  value_cr = t.cr;
  front = refl;
  back = ends_outside-lacks b'=' session_id t.space;
}

first_cookie : find cookie_field (utf8 "GET / HTTP/1.1\r\n" ++ cookie_field) ≡ some 16
unfolding find utf8
first_cookie = refl

module _ (session_id : Text) (t : IsToken session_id) where
  home_request-nul : lacks 0 (home_request session_id) ≡ true
  unfolding utf8
  home_request-nul = lacks-append 0 session_id (crlf ++ crlf) t.nul refl

  no_login_page : mentions "GET /login.html" (home_request session_id) ≡ false
  unfolding find utf8
  no_login_page =
      rw
        (find-lacks_all b'G' (utf8 "ET /login.html") (session_id ++ (crlf ++ crlf))
          (lacks-append b'G' session_id (crlf ++ crlf) t.get refl))
        refl

  no_login : mentions "POST /login" (home_request session_id) ≡ false
  unfolding find utf8
  no_login =
      rw
        (find-lacks_all b'P' (utf8 "OST /login") (session_id ++ (crlf ++ crlf))
          (lacks-append b'P' session_id (crlf ++ crlf) t.post refl))
        refl

  no_logout : mentions "GET /logout" (home_request session_id) ≡ false
  unfolding find utf8
  no_logout =
      rw
        (find-lacks_all b'G' (utf8 "ET /logout") (session_id ++ (crlf ++ crlf))
          (lacks-append b'G' session_id (crlf ++ crlf) t.get refl))
        refl

  is_home :
      (mentions "GET / HTTP" (home_request session_id)
        || mentions "GET /?" (home_request session_id))
      ≡ true
  unfolding find utf8
  is_home = refl

  home_request-cookie :
      lookup session_key (store_all ((session_key, session_id) ∷ []) []) ≡ some session_id
  unfolding lookup insert
  home_request-cookie = rw (text_eq_refl session_key) refl

  -- The shortest such request is one.
  pub home_request-HomeRequest :
      length (home_request session_id) < buffer_size
      → HomeRequest session_id (home_request session_id)
  unfolding utf8
  home_request-HomeRequest small = record {
    pre = utf8 "GET / HTTP/1.1\r\n";
    post = crlf;
    first = (session_key, session_id);
    others = [];
    bytes = refl;
    first_field = first_cookie;
    plain = (IsToken-IsPlain session_id t, tt);
    session = home_request-cookie;
    fits = small;
    nul = home_request-nul;
    no_login_page = no_login_page;
    no_login = no_login;
    no_logout = no_logout;
    is_home = is_home;
  }
