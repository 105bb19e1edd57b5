-- ===== src/FirstServers/Datagrams.antt =====
-- UDP1: which datagrams are shown as they came, and what the client sees.
use study_code.Prelude.{
  ℕ, zero, suc, ◌-◌, ◌≤◌, ◌<◌, ◌≡◌, refl, ap, ◌∙◌, Bool, true, false, ◌&&◌, none, some, List, [],
  ◌∷◌, ◌++◌, append-nil, length, take, drop, replicate, length-take, ltb, ltb→lt, if◌then◌else◌,
  arith, Bool-cases, inl, inr,
}
use study_code.Prelude.Int.{ℤ, is_zero, is_positive, is_negative}
use study_code.Text.{Text, c_string}
use study_code.Text.Search.{take_all}
use study_code.Text.Split.{lacks, take-lacks}
use study_code.Text.Buffer.{c_string-lacks, c_string-fill_eq}
use study_code.FirstServers.{
  buffer_size, cleared, filled, Received, from, failed, Out, shows, sendto, udp_response, udp_serve,
  udp_server, udp_message, udp_client,
}

drop-replicate : (k n : ℕ) → drop {A = ℕ} k (replicate n 0) ≡ replicate (n - k) 0
drop-replicate zero n = let e : n ≡ n - 0 = omega arith in ap (λ m. replicate {A = ℕ} m 0) e
drop-replicate (suc k) zero =
    let e : 0 ≡ 0 - suc k = omega arith in ap (λ m. replicate {A = ℕ} m 0) e
drop-replicate (suc k) (suc n) =
    let e : n - k ≡ suc n - suc k = omega arith in
    drop-replicate k n ∙ ap (λ m. replicate {A = ℕ} m 0) e

filled-cleared :
    (s : Text)
    → filled s cleared
      ≡ take buffer_size s ++ replicate (buffer_size - length (take buffer_size s)) 0
unfolding cleared
filled-cleared s =
    ap (λ r. take buffer_size s ++ r) (drop-replicate (length (take buffer_size s)) buffer_size)

pub filled-short :
    (s : Text) → lacks 0 s ≡ true → length s < buffer_size → c_string (filled s cleared) ≡ some s
filled-short s k h = rw (filled-cleared s) (
    rw (take_all buffer_size s (omega arith))
      (c_string-fill_eq s (buffer_size - length s) k (omega arith)))

pub filled-full :
    (s : Text) → lacks 0 s ≡ true → buffer_size ≤ length s → c_string (filled s cleared) ≡ none
filled-full s k h =
    let no_room : buffer_size - length (take buffer_size s) ≡ 0 =
      omega (arith, length-take buffer_size s, h) in
    rw (filled-cleared s) (
      rw no_room (
        rw (append-nil (take buffer_size s))
          (c_string-lacks (take buffer_size s) (take-lacks buffer_size 0 s k))))

-- Datagrams without a NUL, and among them those that leave room for one.
abbrev pub Plain : List Received → Type 0
Plain [] = Unit
Plain (failed ∷ rs) = ⊥
Plain (from peer datagram ∷ rs) = (lacks 0 datagram ≡ true) × Plain rs

abbrev pub all_short : List Received → Bool
all_short [] = true
all_short (failed ∷ rs) = true
all_short (from peer datagram ∷ rs) = ltb (length datagram) buffer_size && all_short rs

abbrev pub shown_and_answered : List Received → List Out
shown_and_answered [] = []
shown_and_answered (failed ∷ rs) = []
shown_and_answered (from peer datagram ∷ rs) =
    shows datagram ∷ sendto peer udp_response ∷ shown_and_answered rs

udp_serve-shown :
    (rs : List Received)
    → Plain rs
    → udp_serve rs cleared ≡ (if all_short rs then some (shown_and_answered rs) else none)
unfolding udp_serve
udp_serve-shown [] h = refl
udp_serve-shown (failed ∷ rs) h = elim h [ ]
udp_serve-shown (from peer datagram ∷ rs) (k, h) =
    let ih = udp_serve-shown rs h in
    elim (Bool-cases (ltb (length datagram) buffer_size)) [
      | inl short ↦
          let here = filled-short datagram k (ltb→lt (length datagram) buffer_size short) in
          elim (Bool-cases (all_short rs)) [
            | inl fit ↦ rw here (rw ih (rw short (rw fit refl)))
            | inr over ↦ rw here (rw ih (rw short (rw over refl)))
          ]
      | inr long ↦ rw (filled-full datagram k (ground arith)) (rw long refl)
    ]

-- Behind a `socket` that does not return 0 and a `bind` that does not fail, the first UDP server
-- shows datagrams without a NUL as they came and answers each, in order, if all have fewer than
-- 1024 bytes; if one has more it prints its buffer past its end.
pub udp_server-shown :
    (socket_ret bind_ret : ℤ) (rs : List Received)
    → is_zero socket_ret ≡ false
    → is_negative bind_ret ≡ false
    → Plain rs
    → udp_server socket_ret bind_ret rs
      ≡ (if all_short rs then some (shown_and_answered rs) else none)
unfolding udp_server
udp_server-shown socket_ret bind_ret rs s b h = rw s (rw b (udp_serve-shown rs h))

-- The client's datagram at the server, and the server's answer at the client.
pub udp_server-udp_client :
    (socket_ret bind_ret inet_pton_ret : ℤ) (peer : ℕ)
    → is_zero socket_ret ≡ false
    → is_negative bind_ret ≡ false
    → is_positive inet_pton_ret ≡ true
    → (udp_server socket_ret bind_ret (from peer udp_message ∷ [])
        ≡ some (shows udp_message ∷ sendto peer udp_response ∷ []))
      × (udp_client socket_ret inet_pton_ret (from peer udp_response)
          ≡ some (sendto 0 udp_message ∷ shows udp_response ∷ []))
unfolding udp_client udp_message udp_response
udp_server-udp_client socket_ret bind_ret inet_pton_ret peer s b i = (
  udp_server-shown socket_ret bind_ret (from peer udp_message ∷ []) s b (refl, tt),
  rw s (rw i (rw (filled-short udp_response refl (omega arith)) refl)),
)
