-- ===== src/Http/Server/Serve.antt =====
-- The loop over connections, and the program around it.
use study_code.Prelude.{
  ℕ, ◌+◌, ◌<◌, ◌≡◌, refl, subst, false, some, List, [], ◌∷◌, ◌++◌, arith, length, if◌then◌else◌,
  Option-cases, inl, inr,
}
use study_code.Prelude.Int.{ℤ, minus_one, ◌+ℤ◌}
use study_code.Text.{Text, c_string}
use study_code.StringMap.{lookup, lookup-insert, lookup-erase}
use study_code.Sys.{same_fd_refl, Trace, count_close, same_fd, recv, send, close, accept}
use study_code.Http.Cookie.{parse_cookies}
use study_code.Http.Session.{
  SessionData, SessionManager, create_session, generate_session_id, is_session_valid,
  destroy_session, default_timeout,
}
use study_code.Http.Session.Laws.{
  IsValid, create_session-IsValid, is_session_valid-IsValid, destroy_session-IsValid,
}
use study_code.Http.Server.{
  Env, buffer_size, fill_buffer, cookie_or_empty, session_key, test_user, respond, handle_client,
  Client, HttpServer, new_server, InitResults, init_socket, serve, stop, main,
}
use study_code.Http.Server.Request.{handle_client_answers}

-- The pool's ids are distinct, and each belongs to the one user that logins are given.
pub record Inv (mgr : SessionManager) : Type 0 where
  pub distinct : IsValid mgr
  pub one_user :
      (j : Text) (entry : SessionData)
      → lookup j mgr.sessions ≡ some entry
      → entry.username ≡ test_user

is_session_valid-one_user :
    (session_id j : Text) (now : ℤ) (mgr : SessionManager) (entry : SessionData)
    → lookup j (is_session_valid session_id now mgr).1.sessions ≡ some entry
    → lookup j mgr.sessions ≡ some entry
unfolding is_session_valid
is_session_valid-one_user session_id j now mgr entry e =
    ground (arith, lookup-erase session_id j mgr.sessions)

respond-Inv :
    (env : Env) (request session_id : Text) (mgr : SessionManager)
    → Inv mgr
    → Inv (respond env request session_id mgr).1
unfolding respond create_session destroy_session
respond-Inv env request session_id mgr v = record {
  distinct = ground (
    arith,
    v.distinct,
    create_session-IsValid mgr test_user default_timeout env.id_time env.login_time env.draw,
    is_session_valid-IsValid mgr session_id env.check_time,
    destroy_session-IsValid mgr session_id,
  );
  one_user = λ j entry e. ground (
    arith,
    v.one_user j entry,
    lookup-insert (generate_session_id env.id_time env.draw) j
        (record { username = test_user; expire_time = env.login_time +ℤ default_timeout })
        mgr.sessions,
    lookup-erase session_id j mgr.sessions,
    is_session_valid-one_user session_id j env.check_time mgr entry,
  );
}

handle_client-Inv :
    (env : Env) (client_fd : ℤ) (received : List ℕ) (mgr mgr' : SessionManager) (trace : Trace)
    → Inv mgr
    → handle_client env client_fd received mgr ≡ some (mgr', trace)
    → Inv mgr'
unfolding handle_client
handle_client-Inv env client_fd received mgr mgr' trace v e =
    elim (Option-cases (c_string (fill_buffer received))) [
      | inl n ↦ absurd (ground (arith, n))
      | inr (request, f) ↦ elim (Option-cases (parse_cookies request)) [
        | inl n ↦ absurd (ground (arith, n, f))
        | inr (cookies, g) ↦
            let id = cookie_or_empty (lookup session_key cookies) in
            let same : (respond env request id mgr).1 ≡ mgr' = ground (arith, f, g) in
            subst Inv same (respond-Inv env request id mgr v)
      ]
    ]

-- Whatever the clients send, if the pool's ids are distinct and each belongs to "test_user" before
-- the rounds over some connections, the same holds after them, if none of them faults.
pub serve-Inv :
    (server : HttpServer) (clients : List Client) (mgr mgr' : SessionManager) (trace : Trace)
    → Inv mgr
    → serve server clients mgr ≡ some (mgr', trace)
    → Inv mgr'
unfolding serve
serve-Inv server [] mgr mgr' trace v e = subst Inv (ground arith) v
serve-Inv server (c ∷ cs) mgr mgr' trace v e =
    elim (Option-cases (handle_client c.env c.client_fd c.received mgr)) [
      | inl n ↦ absurd (ground (arith, n))
      | inr (handled, f) ↦ elim (Option-cases (serve server cs handled.0)) [
        | inl n ↦ absurd (ground (arith, n, f))
        | inr (served, g) ↦
            serve-Inv server cs handled.0 mgr' served.1
              (handle_client-Inv c.env c.client_fd c.received mgr handled.0 handled.1 v f)
              (ground (arith, f, g))
      ]
    ]

-- Every request leaves room in the buffer.
abbrev pub AllFit : List Client → Type 0
AllFit [] = Unit
AllFit (c ∷ cs) = (length c.received < buffer_size) × AllFit cs

abbrev pub fds_closed : List Client → ℤ → ℕ
fds_closed [] fd = 0
fds_closed (c ∷ cs) fd = (if same_fd fd c.client_fd then 1 else 0) + fds_closed cs fd

-- Where all requests leave room in the buffer, the rounds over the given connections run to the
-- end, and each descriptor is closed as often as an accepted connection had it.
pub serve-count_close :
    (server : HttpServer) (clients : List Client) (mgr : SessionManager)
    → AllFit clients
    → (mgr' : SessionManager) × (trace : Trace) × (serve server clients mgr ≡ some (mgr', trace))
      × ((fd : ℤ) → count_close fd trace ≡ fds_closed clients fd)
unfolding serve count_close
serve-count_close server [] mgr h = (mgr, [], refl, λ fd. refl)
serve-count_close server (c ∷ cs) mgr (fit, h) =
    let (response, mgr1, e) = handle_client_answers c.env c.client_fd c.received mgr fit in
    let (mgr', trace, f, counts) = serve-count_close server cs mgr1 h in
    (
      mgr',
      accept server.server_fd
          ∷ recv c.client_fd
          ∷ send c.client_fd response
          ∷ close c.client_fd
          ∷ trace,
      rw e (rw f refl),
      λ fd. rw (counts fd) refl,
    )

-- Where the initialisation fails, `main` ends by `stop`, and the descriptor of the listening
-- socket is closed once, if there is one.
pub main_failed-count_close :
    (r : InitResults) (clients : List Client)
    → (init_socket r (new_server 8080)).0 ≡ false
    → (trace : Trace) × (main r clients ≡ some trace)
      × (count_close r.socket_ret trace ≡ (if same_fd r.socket_ret minus_one then 0 else 1))
unfolding main count_close
main_failed-count_close r clients h =
    let (ready, server, trace) = init_socket r (new_server 8080) in
    (trace ++ stop server, ground arith, ground (arith, same_fd_refl r.socket_ret))
