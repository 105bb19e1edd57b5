-- ===== src/Http/Server/Login.antt =====
-- HttpServer.cpp: from the login or the logout to the home page.
use study_code.Prelude.{◌≡◌, refl, ◌++◌}
use study_code.Text.{Text, utf8}
use study_code.Text.Search.{find_anywhere}
use study_code.Http.Session.{SessionManager}
use study_code.Http.Server.{Env, login_page, respond}

-- Wherever "GET /login.html" stands in a request, in the path, a header or the body, the login
-- page is sent and no session changes.
pub respond-login_page_anywhere :
    (env : Env) (pre post session_id : Text) (mgr : SessionManager)
    → respond env (pre ++ (utf8 "GET /login.html" ++ post)) session_id mgr ≡ (login_page env, mgr)
unfolding respond
respond-login_page_anywhere env pre post session_id mgr =
    rw (find_anywhere (utf8 "GET /login.html") pre post) refl
