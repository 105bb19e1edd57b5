-- ===== src/Http/Server/Branches.antt =====
-- The branches of `handleClient` against the session pool's contract.
use study_code.Prelude.{
  ◌≡◌, true, false, Option, none, some, arith, if◌then◌else◌, inl, inr, Option-cases,
}
use study_code.Prelude.Int.{ℤ, ◌+ℤ◌, ◌≤ℤ◌, ltb_ℤ}
use study_code.Text.{Text, text_eq}
use study_code.Http.Session.{SessionManager, generate_session_id, is_session_valid, default_timeout}
use study_code.Http.Session.Laws.{
  user_at, create_session-user_at, is_session_valid-user_at, is_session_valid_keeps,
  get_username-user_at, destroy_session-user_at,
}
use study_code.Http.Server.{
  Env, welcome_page, redirect_to_login, test_user, home, mentions, respond,
}

-- The page of `GET /` for what the session id stands for.
abbrev pub home_page : Option Text → Text
home_page none = redirect_to_login
home_page (some username) = welcome_page username

pub home-user_at :
    (env : Env) (session_id : Text) (mgr : SessionManager)
    → (home env session_id mgr).0 ≡ home_page (user_at mgr env.check_time session_id)
unfolding home
home-user_at env session_id mgr = elim (Option-cases (user_at mgr env.check_time session_id)) [
  | inl n ↦ ground (arith, is_session_valid-user_at mgr session_id env.check_time)
  | inr (u, e) ↦ ground (
    arith,
    is_session_valid-user_at mgr session_id env.check_time,
    is_session_valid_keeps mgr session_id session_id env.check_time env.check_time (omega arith),
    get_username-user_at (is_session_valid session_id env.check_time mgr).1 session_id u
        env.check_time,
  )
]

-- No request but a login gives an id a user: what an id stands for after any other request it
-- stood for before.
pub respond_no_login :
    (env : Env) (request session_id j user : Text) (mgr : SessionManager) (later : ℤ)
    → mentions "POST /login" request ≡ false
    → env.check_time ≤ℤ later
    → user_at (respond env request session_id mgr).1 later j ≡ some user
    → user_at mgr later j ≡ some user
unfolding respond
respond_no_login env request session_id j user mgr later h k e = ground (
  arith,
  is_session_valid_keeps mgr session_id j env.check_time later,
  destroy_session-user_at mgr session_id j later,
)

-- A logout ends the session of its cookie for good, and no other.
pub respond_logout :
    (env : Env) (request session_id j : Text) (mgr : SessionManager) (later : ℤ)
    → mentions "GET /login.html" request ≡ false
    → mentions "POST /login" request ≡ false
    → mentions "GET /logout" request ≡ true
    → user_at (respond env request session_id mgr).1 later j
      ≡ (if text_eq session_id j then none else user_at mgr later j)
unfolding respond
respond_logout env request session_id j mgr later h k e =
    ground (arith, destroy_session-user_at mgr session_id j later)

-- A login makes its new id stand for the one user for an hour, and leaves every other id alone.
pub respond_login :
    (env : Env) (request session_id j : Text) (mgr : SessionManager) (later : ℤ)
    → mentions "GET /login.html" request ≡ false
    → mentions "POST /login" request ≡ true
    → user_at (respond env request session_id mgr).1 later j ≡ (
        if text_eq (generate_session_id env.id_time env.draw) j
        then (if ltb_ℤ (env.login_time +ℤ default_timeout) later then none else some test_user)
        else user_at mgr later j)
unfolding respond
respond_login env request session_id j mgr later h k = rw h (
    rw k (
      create_session-user_at mgr test_user default_timeout env.id_time env.login_time later env.draw
        j))
