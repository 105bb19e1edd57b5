-- ===== src/TcpClient/Answers.antt =====
-- tcp_client.cpp: which answers are shown as they came.
use study_code.Prelude.{
  ℕ, ◌-◌, ◌<◌, ◌≡◌, ◌≢◌, refl, ap, ◌∙◌, true, false, [], ◌∷◌, append-nil, arith, length, take, ltb,
  ltb→lt, if◌then◌else◌, Bool-cases, inl, inr, length-take,
}
use study_code.Text.{Text}
use study_code.Text.Search.{take_all}
use study_code.Text.Split.{lacks, take-lacks}
use study_code.Text.Buffer.{c_string-lacks, c_string-fill_eq}
use study_code.TcpClient.{bytes, received, unterminated, shown_got, show_reply}

shown_got_short :
    (got : Text)
    → lacks 0 got ≡ true
    → length got < 1024
    → shown_got got ≡ received got (length got)
unfolding shown_got
shown_got_short got k l = rw (c_string-fill_eq got (1024 - length got) k (omega arith)) refl

shown_got_full :
    (got : Text) → lacks 0 got ≡ true → length got ≡ 1024 → shown_got got ≡ unterminated
unfolding shown_got
shown_got_full got k l =
    let no_room : 1024 - length got ≡ 0 = omega arith in
    rw (no_room, append-nil got) (rw (c_string-lacks got k) refl)

length-take_full : (n : ℕ) (s : Text) → ltb (length s) n ≡ false → length (take n s) ≡ n
length-take_full n s h = ground (arith, length-take n s)

-- An answer that is not empty and has no NUL is shown as it came when it has fewer than 1024
-- bytes; a longer one is cut to fill the buffer, which is then read past its end.
pub show_reply_lem :
    (s : Text)
    → s ≢ []
    → lacks 0 s ≡ true
    → show_reply (bytes s) ≡ (if ltb (length s) 1024 then received s (length s) else unterminated)
unfolding show_reply
show_reply_lem [] h k = absurd (h refl)
show_reply_lem (b ∷ bs) h k = elim (Bool-cases (ltb (length (b ∷ bs)) 1024)) [
  | inl short ↦
      let less = ltb→lt (length (b ∷ bs)) 1024 short in
      rw short
        (ap shown_got (take_all 1024 (b ∷ bs) (omega arith)) ∙ shown_got_short (b ∷ bs) k less)
  | inr long ↦ rw long (
      shown_got_full (take 1024 (b ∷ bs)) (take-lacks 1024 0 (b ∷ bs) k)
        (length-take_full 1024 (b ∷ bs) long))
]
