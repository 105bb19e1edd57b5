-- ===== src/ThreadServer.antt =====
-- TCP3pthread/tcp_server.cpp: a server that starts a detached thread for each connection. A round of
-- the loop is a function of what the calls return; the calls of its thread are a trace of its own.
pub mod Closings
use study_code.Prelude.{
  ℕ, Bool, true, false, not, Option, none, some, List, [], ◌∷◌, ◌++◌, if◌then◌else◌,
}
use study_code.Prelude.Int.{ℤ, pos, is_negative, is_zero}
use study_code.Text.{Text, utf8}
use study_code.Sys.{
  SysCall, Trace, socket, setsockopt, bind, listen, accept, recv, send, close, exit,
}

pub record Setup : Type 0 where
  pub socket_ret : ℤ
  pub setsockopt_ret : ℤ
  pub bind_ret : ℤ
  pub listen_ret : ℤ

-- The constructor: the listening descriptor, unless the process exits.
unfoldable pub new_server : Setup → Option ℤ × Trace
new_server r =
    let fd = r.socket_ret in
    if is_negative fd
    then (none, socket ∷ exit 1 ∷ [])
    else if not (is_zero r.setsockopt_ret)
    then (none, socket ∷ setsockopt fd ∷ close fd ∷ exit 1 ∷ [])
    else if is_negative r.bind_ret
    then (none, socket ∷ setsockopt fd ∷ bind fd 8080 ∷ close fd ∷ exit 1 ∷ [])
    else if is_negative r.listen_ret
    then (none, socket ∷ setsockopt fd ∷ bind fd 8080 ∷ listen fd (pos 3) ∷ close fd ∷ exit 1 ∷ [])
    else (some fd, socket ∷ setsockopt fd ∷ bind fd 8080 ∷ listen fd (pos 3) ∷ [])

-- What the calls of a round return; `created` is the result of `pthread_create`.
pub record Round : Type 0 where
  pub conn_fd : ℤ
  pub created : ℤ
  pub valread : ℤ

-- The thread. Its second test repeats the first, so that a `recv` of nothing takes the last branch.
unfoldable pub handle_client : ℤ → ℤ → Trace
handle_client valread conn_fd =
    recv conn_fd
    ∷ ((if is_negative valread
          then []
          else if is_negative valread
          then []
          else send conn_fd (utf8 "thread has received message") ∷ [])
        ++ (close conn_fd ∷ []))

-- A round of `run`.
unfoldable pub round : ℤ → Round → Trace
round listen_fd r =
    if is_negative r.conn_fd
    then accept listen_fd ∷ []
    else if not (is_zero r.created)
    then accept listen_fd ∷ close r.conn_fd ∷ []
    else accept listen_fd ∷ []

-- What the round's thread does, if one is created.
unfoldable pub thread : Round → Trace
unfolding handle_client
thread r =
    if is_negative r.conn_fd
    then []
    else if not (is_zero r.created)
    then []
    else handle_client r.valread r.conn_fd

-- The main thread's calls over some rounds.
unfoldable pub run : ℤ → List Round → Trace
unfolding round
run listen_fd [] = []
run listen_fd (r ∷ rs) = round listen_fd r ++ run listen_fd rs

-- The calls of all threads, one after another.
unfoldable pub threads : List Round → Trace
unfolding thread
threads [] = []
threads (r ∷ rs) = thread r ++ threads rs
