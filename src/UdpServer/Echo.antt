-- ===== src/UdpServer/Echo.antt =====
-- echo_server/EchoServer.hpp: what is sent back, and to whom; how `Init` ends.
use study_code.Prelude.{
  ℕ, ◌≤◌, ◌≡◌, ◌≢◌, refl, ap, Bool, true, false, Option, none, some, List, [], ◌∷◌, ◌++◌, arith,
  length,
}
use study_code.Prelude.Int.{ℤ, is_negative}
use study_code.Text.{Text, utf8}
use study_code.Text.Split.{lacks}
use study_code.Text.Buffer.{terminated-whole}
use study_code.Sys.{Trace, exit, same_fd_refl, count_close}
use study_code.UdpServer.{
  UdpServer, new_server, destroyed, init, status_seen, Received, from, failed, Out, sendto, calls,
  receive_error, echo_round, rounds,
}

-- A datagram of a text that fits: not empty, at most 1023 bytes, no NUL.
abbrev pub Fits : List Received → Type 0
Fits [] = Unit
Fits (from peer s ∷ rs) = (s ≢ []) × (length s ≤ 1023) × (lacks 0 s ≡ true) × Fits rs
Fits (failed ∷ rs) = Fits rs

abbrev pub echoes : List Received → List Out
echoes [] = []
echoes (from peer s ∷ rs) = sendto peer (utf8 "server echo#" ++ s) ∷ echoes rs
echoes (failed ∷ rs) = receive_error ∷ echoes rs

-- Over any receptions whose datagrams are not empty, have at most 1023 bytes and no NUL, each
-- datagram is sent back to its peer behind the words of the server, in order, and a failed
-- reception is reported.
pub rounds-echoes : (rs : List Received) → Fits rs → rounds echo_round rs ≡ echoes rs
unfolding rounds echo_round
rounds-echoes [] h = refl
rounds-echoes (from peer [] ∷ rs) (full, size, clean, h) = absurd (full refl)
rounds-echoes (from peer (b ∷ bs) ∷ rs) (full, size, clean, h) =
    rw (terminated-whole 1023 (b ∷ bs) size clean) (rw (rounds-echoes rs h) refl)
rounds-echoes (failed ∷ rs) h = rw (rounds-echoes rs h) refl

-- The peers of the datagrams that are not empty, and the peers that are sent to, in order.
abbrev pub speakers : List Received → List ℕ
speakers [] = []
speakers (from peer [] ∷ rs) = speakers rs
speakers (from peer (b ∷ bs) ∷ rs) = peer ∷ speakers rs
speakers (failed ∷ rs) = speakers rs

abbrev pub addressed : List Out → List ℕ
addressed [] = []
addressed (sendto peer bytes ∷ out) = peer ∷ addressed out
addressed (calls word ∷ out) = addressed out
addressed (receive_error ∷ out) = addressed out

pub addressed-rounds : (rs : List Received) → addressed (rounds echo_round rs) ≡ speakers rs
unfolding rounds echo_round
addressed-rounds [] = refl
addressed-rounds (from peer [] ∷ rs) = addressed-rounds rs
addressed-rounds (from peer (b ∷ bs) ∷ rs) = ap (λ l. peer ∷ l) (addressed-rounds rs)
addressed-rounds (failed ∷ rs) = addressed-rounds rs

-- The statuses with which a trace's process exits, as its parent sees them.
abbrev pub statuses : Trace → List ℕ
statuses [] = []
statuses (exit n ∷ trace) = status_seen n ∷ statuses trace
statuses (_ ∷ trace) = statuses trace

abbrev pub closed_in_the_end : Option UdpServer → ℤ → ℕ
closed_in_the_end none fd = 0
closed_in_the_end (some s) fd = count_close fd (destroyed s)

-- `BIND_ERR`
abbrev pub bind_err : ℕ
bind_err = 3

-- What a user relies on: the server holds the new socket, which its destructor closes once; else the
-- process exits, with 2 for the socket and with 225, which is not `BIND_ERR`, for the binding.
abbrev pub Ends : ℤ → Bool → Bool → Option UdpServer × Trace → Type 0
Ends fd true bound r = (r.0 ≡ none) × (statuses r.1 ≡ 2 ∷ [])
Ends fd false true r = (r.0 ≡ none) × (statuses r.1 ≡ 225 ∷ [])
Ends fd false false r = (closed_in_the_end r.0 fd ≡ 1) × (statuses r.1 ≡ [])

pub init-Ends :
    (port : ℕ) (ip : Text) (socket_ret bind_ret : ℤ)
    → Ends socket_ret
        (is_negative socket_ret)
        (is_negative bind_ret)
        (init socket_ret bind_ret (new_server port ip))
unfolding init new_server destroyed count_close
init-Ends port ip socket_ret bind_ret = ground (arith, same_fd_refl socket_ret)
