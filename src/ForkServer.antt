-- ===== src/ForkServer.antt =====
-- TCP2fork/tcp_server.cpp: a server that forks a child for each connection. A round of the loop is a
-- function of what the calls return; the child's calls are a trace of its own.
pub mod Closings
mod Tests
use study_code.Prelude.{
  ℕ, Bool, true, false, not, Option, none, some, List, [], ◌∷◌, ◌++◌, if◌then◌else◌,
}
use study_code.Prelude.Int.{ℤ, pos, is_negative, is_zero, is_positive}
use study_code.Text.{Text, utf8}
use study_code.Sys.{
  SysCall, Trace, socket, setsockopt, bind, listen, accept, recv, send, close, fork, exit,
}

pub record Setup : Type 0 where
  pub socket_ret : ℤ
  pub setsockopt_ret : ℤ
  pub bind_ret : ℤ
  pub listen_ret : ℤ

-- The constructor: the listening descriptor, unless the process exits.
unfoldable pub new_server : Setup → Option ℤ × Trace
new_server r =
    let fd = r.socket_ret in
    if is_negative fd
    then (none, socket ∷ exit 1 ∷ [])
    else if not (is_zero r.setsockopt_ret)
    then (none, socket ∷ setsockopt fd ∷ close fd ∷ exit 1 ∷ [])
    else if is_negative r.bind_ret
    then (none, socket ∷ setsockopt fd ∷ bind fd 8080 ∷ close fd ∷ exit 1 ∷ [])
    else if is_negative r.listen_ret
    then (none, socket ∷ setsockopt fd ∷ bind fd 8080 ∷ listen fd (pos 3) ∷ close fd ∷ exit 1 ∷ [])
    else (some fd, socket ∷ setsockopt fd ∷ bind fd 8080 ∷ listen fd (pos 3) ∷ [])

-- What the calls of a round return; `pid` is what `fork` returns to the parent.
pub record Round : Type 0 where
  pub conn_fd : ℤ
  pub pid : ℤ
  pub valread : ℤ

-- The child's part, from the test on `pid` on.
unfoldable pub child : ℤ → Round → Trace
child listen_fd r =
    close listen_fd
    ∷ recv r.conn_fd
    ∷ ((if is_positive r.valread
          then send r.conn_fd (utf8 "Server received your message!") ∷ []
          else [])
        ++ (close r.conn_fd ∷ exit 0 ∷ []))

-- The calls of a process behind `fork`, which returned `pid`.
unfoldable pub after_fork : ℤ → ℤ → Round → Trace
unfolding child
after_fork pid listen_fd r =
    if is_negative pid
    then close listen_fd ∷ []
    else if is_zero pid
    then child listen_fd r
    else close r.conn_fd ∷ []

-- A round of `run` in the parent.
unfoldable pub round : ℤ → Round → Trace
unfolding after_fork
round listen_fd r =
    if is_negative r.conn_fd
    then accept listen_fd ∷ []
    else accept listen_fd ∷ fork ∷ after_fork r.pid listen_fd r

unfoldable pub run : ℤ → List Round → Trace
unfolding round
run listen_fd [] = []
run listen_fd (r ∷ rs) = round listen_fd r ++ run listen_fd rs
