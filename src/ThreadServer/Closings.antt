-- ===== src/ThreadServer/Closings.antt =====
-- tcp_server.cpp: which descriptors the main thread and the others close, and who is answered.
use study_code.Prelude.{
  ℕ, ◌+◌, ◌≡◌, Bool, true, false, not, ◌&&◌, Option, none, some, List, [], ◌∷◌, arith,
}
use study_code.Prelude.Int.{ℤ, is_negative}
use study_code.Sys.{Trace, send, same_fd, same_fd_refl, count_close, count_close-append}
use study_code.ThreadServer.{Setup, new_server, Round, handle_client, round, thread, run, threads}

abbrev pub count : Bool → ℕ
count true = 1
count false = 0

-- The rounds that accepted a connection on the descriptor.
abbrev pub accepted : List Round → ℤ → ℕ
accepted [] fd = 0
accepted (r ∷ rs) fd = count (not (is_negative r.conn_fd) && same_fd fd r.conn_fd) + accepted rs fd

round-count_close :
    (listen_fd : ℤ) (r : Round) (fd : ℤ)
    → count_close fd (round listen_fd r) + count_close fd (thread r) ≡ accepted (r ∷ []) fd
unfolding round thread handle_client count_close
round-count_close listen_fd r fd = ground arith

-- Over any rounds of the loop, the main thread and the threads it starts together close each
-- descriptor exactly as often as a connection on it was accepted, whether or not threads could be
-- created.
pub threads-count_close :
    (listen_fd : ℤ) (rs : List Round) (fd : ℤ)
    → count_close fd (run listen_fd rs) + count_close fd (threads rs) ≡ accepted rs fd
unfolding run threads count_close
threads-count_close listen_fd [] fd = omega arith
threads-count_close listen_fd (r ∷ rs) fd =
    rw (count_close-append fd (round listen_fd r) (run listen_fd rs)) (
      rw (count_close-append fd (thread r) (threads rs))
        (ground (arith, round-count_close listen_fd r fd, threads-count_close listen_fd rs fd)))

-- How many messages a trace sends.
abbrev pub count_send : Trace → ℕ
count_send [] = 0
count_send (send fd bytes ∷ trace) = 1 + count_send trace
count_send (_ ∷ trace) = count_send trace

pub handle_client-count_send :
    (valread conn_fd : ℤ)
    → count_send (handle_client valread conn_fd) ≡ count (not (is_negative valread))
unfolding handle_client
handle_client-count_send valread conn_fd = ground arith

abbrev pub opened : Option ℤ → ℕ
opened none = 0
opened (some fd) = 1

pub closes-new_server :
    (r : Setup)
    → is_negative r.socket_ret ≡ false
    → count_close r.socket_ret (new_server r).1 + opened (new_server r).0 ≡ 1
unfolding new_server count_close
closes-new_server r h = ground (arith, same_fd_refl r.socket_ret)
