-- ===== src/NetCal/Server.antt =====
-- Socket.hpp and TcpServer.hpp: how the set-up ends, what a string has received, and which descriptors
-- are closed.
use study_code.Prelude.{
  ℕ, ◌≤◌, ◌≡◌, refl, sym, ap, ◌∙◌, Bool, true, false, not, Option, none, some, List, [], ◌∷◌, ◌++◌,
  append_assoc, append-nil, arith, length,
}
use study_code.Prelude.Int.{ℤ, is_negative, is_zero}
use study_code.Text.{Text}
use study_code.Text.Split.{lacks}
use study_code.Text.Buffer.{terminated-whole}
use study_code.Sys.{Trace, exit, count_close, count_close-append}
use study_code.NetCal.{
  Received, got, failed, InetAddr, TcpSocket, Setup, new_server, build_tcp_socket_method,
  create_socket_or_die, bind_socket_or_die, listen_socket_or_die, accept_socket, loop, rec, rec_all,
}

abbrev pub statuses : Trace → List ℕ
statuses [] = []
statuses (exit n ∷ trace) = n ∷ statuses trace
statuses (_ ∷ trace) = statuses trace

-- The status of the first call that failed.
abbrev pub first_failure : Bool → Bool → Bool → List ℕ
first_failure true bound listens = 1 ∷ []
first_failure false true listens = 2 ∷ []
first_failure false false true = 3 ∷ []
first_failure false false false = []

-- The server has the new descriptor exactly when nothing failed.
abbrev pub serves : List ℕ → ℤ → Option TcpSocket
serves [] fd = some (record { sockfd = fd })
serves (n ∷ ns) fd = none

pub new_server-statuses :
    (port : ℕ) (r : Setup)
    → let failures =
        first_failure
          (is_negative r.socket_ret)
          (not (is_zero r.bind_ret))
          (not (is_zero r.listen_ret)) in
      (statuses (new_server port r).1 ≡ failures)
      × ((new_server port r).0 ≡ serves failures r.socket_ret)
unfolding new_server build_tcp_socket_method create_socket_or_die bind_socket_or_die
    listen_socket_or_die
new_server-statuses port r = ground arith

abbrev Chunk : Text → Type 0
Chunk s = (length s ≤ 1023) × (lacks 0 s ≡ true)

-- What arrived fits the buffer and has no NUL.
abbrev pub Chunks : List Received → Type 0
Chunks [] = Unit
Chunks (got s ∷ rs) = Chunk s × Chunks rs
Chunks (failed ∷ rs) = Chunks rs

-- The bytes that arrived, in order.
abbrev pub stream : List Received → Text
stream [] = []
stream (got s ∷ rs) = s ++ stream rs
stream (failed ∷ rs) = stream rs

rec-append :
    (s : TcpSocket) (chunk out : Text) → Chunk chunk → (rec s (got chunk) out).1 ≡ out ++ chunk
unfolding rec
rec-append s [] out h = sym (append-nil out)
rec-append s (b ∷ bs) out (size, clean) =
    ap (λ c. out ++ c) (terminated-whole 1023 (b ∷ bs) size clean)

-- Several `Rec` into one string, of pieces of at most 1023 bytes without a NUL, append the pieces
-- in order.
pub rec_all-stream :
    (s : TcpSocket) (rs : List Received) (out : Text)
    → Chunks rs
    → rec_all s rs out ≡ out ++ stream rs
unfolding rec_all
rec_all-stream s [] out h = sym (append-nil out)
rec_all-stream s (got chunk ∷ rs) out (c, h) =
    rec_all-stream s rs (rec s (got chunk) out).1 h
    ∙ ap (λ o. o ++ stream rs) (rec-append s chunk out c)
    ∙ append_assoc out chunk (stream rs)
rec_all-stream s (failed ∷ rs) out h = unfold rec in rec_all-stream s rs out h

accept-count_close :
    (ret : ℤ) (peer : InetAddr) (s : TcpSocket) (clientaddr : InetAddr) (fd : ℤ)
    → count_close fd (accept_socket ret peer s clientaddr).2 ≡ 0
unfolding accept_socket count_close
accept-count_close ret peer s clientaddr fd = ground arith

-- No connection is ever closed.
pub loop-count_close :
    (rounds : List (ℤ × InetAddr)) (clientaddr : InetAddr) (s : TcpSocket) (fd : ℤ)
    → count_close fd (loop rounds clientaddr s) ≡ 0
unfolding loop count_close
loop-count_close [] clientaddr s fd = refl
loop-count_close ((ret, peer) ∷ rounds) clientaddr s fd =
    rw (count_close-append fd (accept_socket ret peer s clientaddr).2 (loop rounds clientaddr s)) (
      omega (
        arith,
        accept-count_close ret peer s clientaddr fd,
        loop-count_close rounds clientaddr s fd,
      ))
