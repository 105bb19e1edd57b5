-- ===== src/Http/Server/Tests.antt =====
-- Requests and runs of the server at concrete inputs.
use study_code.Prelude.{ℕ, ◌≡◌, refl, none, some, [], ◌∷◌, arith}
use study_code.Prelude.Int.{ℤ, pos, minus_one}
use study_code.Text.{Text, utf8, find}
use study_code.Text.{c_string}
use study_code.StringMap.{lookup}
use study_code.Sys.{Trace, accept, recv, send, close, count_close}
use study_code.Http.Cookie.{parse_cookies}
use study_code.Http.Session.{SessionManager, get_instance, generate_session_id}
use study_code.Http.Server.{
  Env, not_found_page, respond, handle_client, Client, new_server, serve, session_key,
}
use study_code.Http.Server.Request.{handle_client_answers}
use study_code.Http.Cookie.{crlf}
use study_code.Http.Cookie.Parse.{with_cookie_line}
use study_code.Http.Cookie.Render.{render}
use study_code.Http.Server.Serve.{Inv, serve-Inv, serve-count_close, fds_closed}

abbrev zeros : ℕ → ℕ
zeros k = 0

abbrev env : Env
env = record {
  file = λ path. none;
  id_time = pos 5;
  login_time = pos 5;
  check_time = pos 9;
  draw = zeros;
}

abbrev new_id : Text
new_id = generate_session_id (pos 5) zeros

-- A browser's request: the host, two cookies of which the second is the id, and an empty line.
abbrev browser_request : Text → Text
browser_request session_id =
    with_cookie_line (utf8 "GET / HTTP/1.1\r\nHost: h\r\n")
      (b' ' ∷ render ((b'a' ∷ [], b'1' ∷ []) ∷ (session_key, session_id) ∷ [])) crlf

handle_client_answers_example :
    (response : Text) × (mgr' : SessionManager) × (handle_client env
        (pos 4)
        (b'G' ∷ [])
        get_instance
      ≡ some (mgr', recv (pos 4) ∷ send (pos 4) response ∷ close (pos 4) ∷ []))
handle_client_answers_example =
    handle_client_answers env (pos 4) (b'G' ∷ []) get_instance (omega arith)

abbrev client : Client
client = record { client_fd = pos 4; received = b'G' ∷ []; env = env }

get_instance-Inv : Inv get_instance
unfolding lookup
get_instance-Inv = record { distinct = tt; one_user = λ j entry e. cc }

abbrev client_trace : Trace
client_trace = accept minus_one ∷ recv (pos 4) ∷ send (pos 4) not_found_page ∷ close (pos 4) ∷ []

serve_one : serve (new_server 8080) (client ∷ []) get_instance ≡ some (get_instance, client_trace)
unfolding serve handle_client respond parse_cookies utf8 find c_string lookup
serve_one = refl

serve-Inv_example : Inv get_instance
serve-Inv_example =
    serve-Inv (new_server 8080) (client ∷ []) get_instance get_instance client_trace
      get_instance-Inv serve_one

serve-count_close_example :
    (mgr' : SessionManager) × (trace : Trace) × (serve (new_server 8080) (client ∷ []) get_instance
      ≡ some (mgr', trace))
    × ((fd : ℤ) → count_close fd trace ≡ fds_closed (client ∷ []) fd)
serve-count_close_example =
    serve-count_close (new_server 8080) (client ∷ []) get_instance (omega arith, tt)
