-- ===== src/FirstServers/Connection.antt =====
-- TCP1: what the two programs show each other.
use study_code.Prelude.{
  ℕ, ◌<◌, ◌≡◌, refl, true, false, some, [], ◌∷◌, ◌++◌, length, take, arith, length-take,
}
use study_code.Prelude.Int.{ℤ, pos, is_zero, is_positive, is_negative}
use study_code.Text.{Text, c_string}
use study_code.Text.Split.{lacks, take-lacks}
use study_code.Sys.{Trace, socket, setsockopt, bind, listen, accept, connect, recv, send, close}
use study_code.FirstServers.{
  cleared, filled, Setup, tcp_response, tcp_request, tcp_server, tcp_client, buffer_size,
}
use study_code.FirstServers.Datagrams.{filled-short}

-- The bytes that a program sends on a descriptor, one call behind the other.
abbrev pub sent_in : Trace → Text
sent_in [] = []
sent_in (send fd bytes ∷ t) = bytes ++ sent_in t
sent_in (_ ∷ t) = sent_in t

-- All goes well up to `accept`.
abbrev pub Accepts : Setup → Type 0
Accepts r =
    (is_zero r.socket_ret ≡ false)
    × (is_zero r.setsockopt_ret ≡ true)
    × (is_negative r.bind_ret ≡ false)
    × (is_negative r.listen_ret ≡ false)
    × (is_negative r.accept_ret ≡ false)

-- The calls of a server and of a client that meet no failure.
abbrev pub server_calls : Setup → Trace
server_calls r =
    socket
    ∷ setsockopt r.socket_ret
    ∷ bind r.socket_ret 8080
    ∷ listen r.socket_ret (pos 3)
    ∷ accept r.socket_ret
    ∷ recv r.accept_ret
    ∷ send r.accept_ret tcp_response
    ∷ close r.accept_ret
    ∷ close r.socket_ret
    ∷ []

abbrev pub client_calls : ℤ → Trace
client_calls sock = socket ∷ connect sock ∷ send sock tcp_request ∷ recv sock ∷ close sock ∷ []

take-shown :
    (n : ℕ) (s : Text)
    → lacks 0 s ≡ true
    → length s < buffer_size
    → c_string (filled (take n s) cleared) ≡ some (take n s)
take-shown n s k h =
    filled-short (take n s) (take-lacks n 0 s k) (omega (arith, length-take n s, h))

pub tcp_server-tcp_client :
    (r : Setup) (sock inet_pton_ret connect_ret : ℤ) (n m : ℕ)
    → Accepts r
    → is_positive sock ≡ true
    → is_positive inet_pton_ret ≡ true
    → is_negative connect_ret ≡ false
    → (tcp_server r (take n (sent_in (client_calls sock)))
        ≡ some (some (take n tcp_request), server_calls r))
      × (tcp_client sock inet_pton_ret connect_ret (take m (sent_in (server_calls r)))
          ≡ some (some (take m tcp_response), client_calls sock))
unfolding tcp_server tcp_client tcp_request tcp_response
tcp_server-tcp_client r sock inet_pton_ret connect_ret n m (s, o, b, l, a) k i c =
    let asked = take-shown n tcp_request refl (omega arith) in
    let told = take-shown m tcp_response refl (omega arith) in
    (rw s (rw o (rw b (rw l (rw a (rw asked refl))))), rw k (rw i (rw c (rw told refl))))
