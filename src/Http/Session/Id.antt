-- ===== src/Http/Session/Id.antt =====
-- Session ids: of what bytes they are made, and when two are equal.
use study_code.Prelude.{
  ℕ, zero, suc, ◌+◌, ◌<◌, ◌≡◌, refl, sym, ap, ◌∙◌, Bool, true, false, ◌&&◌, ◌||◌, [], ◌∷◌, ◌++◌,
  arith, leb, ◌==◌, if◌then◌else◌,
}
use study_code.Prelude.Int.{ℤ, pos, negsuc}
use study_code.Text.{Text}
use study_code.Text.Split.{lacks, append-injective_at}
use study_code.Text.Decimal.{
  to_string, decimal, decimal-all_digits, all_digits, is_digit, read_decimal, read_decimal-decimal,
}
use study_code.Http.Session.{hex_digit, hex_digits, generate_session_id}

abbrev pub is_id_byte : ℕ → Bool
is_id_byte c = is_digit c || (c == b'_' || (c == b'-' || (leb b'a' c && leb c b'f')))

abbrev all_id_bytes : Text → Bool
all_id_bytes [] = true
all_id_bytes (c ∷ s) = if is_id_byte c then all_id_bytes s else false

lacks_of_all_id_bytes :
    (d : ℕ) (s : Text) → all_id_bytes s ≡ true → is_id_byte d ≡ false → lacks d s ≡ true
lacks_of_all_id_bytes d [] h k = refl
lacks_of_all_id_bytes d (c ∷ s) h k = ground (arith, lacks_of_all_id_bytes d s)

abbrev pub IsDraw : (ℕ → ℕ) → Type 0
IsDraw draw = (i : ℕ) → draw i < 16

hex_digit-is_id_byte : (v : ℕ) → v < 16 → is_id_byte (hex_digit v) ≡ true
hex_digit-is_id_byte v h = ground arith

hex_digits-all_id_bytes :
    (draw : ℕ → ℕ) (rounds i : ℕ) → IsDraw draw → all_id_bytes (hex_digits draw rounds i) ≡ true
unfolding hex_digits
hex_digits-all_id_bytes draw zero i h = refl
hex_digits-all_id_bytes draw (suc rounds) i h =
    rw (hex_digit-is_id_byte (draw i) (h i)) (hex_digits-all_id_bytes draw rounds (i + 1) h)

all_id_bytes-append :
    (s t : Text) → all_id_bytes s ≡ true → all_id_bytes t ≡ true → all_id_bytes (s ++ t) ≡ true
all_id_bytes-append [] t h k = k
all_id_bytes-append (c ∷ s) t h k = ground (arith, all_id_bytes-append s t)

all_id_bytes_of_digits : (s : Text) → all_digits s ≡ true → all_id_bytes s ≡ true
all_id_bytes_of_digits [] h = refl
all_id_bytes_of_digits (c ∷ s) h = ground (arith, all_id_bytes_of_digits s)

lacks_of_digits : (s : Text) → all_digits s ≡ true → lacks b'_' s ≡ true
lacks_of_digits [] h = refl
lacks_of_digits (c ∷ s) h = ground (arith, lacks_of_digits s)

to_string-all_id_bytes : (n : ℤ) → all_id_bytes (to_string n) ≡ true
unfolding to_string
to_string-all_id_bytes (pos n) = all_id_bytes_of_digits (decimal n) (decimal-all_digits n)
to_string-all_id_bytes (negsuc n) =
    all_id_bytes_of_digits (decimal (suc n)) (decimal-all_digits (suc n))

-- An id has no byte but digits, `-`, `_` and `a` to `f`.
pub generate_session_id-lacks :
    (now : ℤ) (draw : ℕ → ℕ) (d : ℕ)
    → IsDraw draw
    → is_id_byte d ≡ false
    → lacks d (generate_session_id now draw) ≡ true
unfolding generate_session_id
generate_session_id-lacks now draw d h k =
    lacks_of_all_id_bytes d (to_string now ++ (b'_' ∷ hex_digits draw 16 0))
      (all_id_bytes-append (to_string now) (b'_' ∷ hex_digits draw 16 0)
        (to_string-all_id_bytes now) (hex_digits-all_id_bytes draw 16 0 h))
      k

hex_digit-injective : (v w : ℕ) → hex_digit v ≡ hex_digit w → v < 16 → w < 16 → v ≡ w
hex_digit-injective v w e h k = ground arith

hex_digits-injective :
    (draw draw' : ℕ → ℕ) (rounds i k : ℕ)
    → IsDraw draw
    → IsDraw draw'
    → hex_digits draw rounds i ≡ hex_digits draw' rounds i
    → k < rounds
    → draw (i + k) ≡ draw' (i + k)
unfolding hex_digits
hex_digits-injective draw draw' zero i k h h' e lt = absurd (omega arith)
hex_digits-injective draw draw' (suc rounds) i zero h h' e lt =
    let n : i + 0 ≡ i = omega arith in
    rw n (hex_digit-injective (draw i) (draw' i) (ground arith) (h i) (h' i))
hex_digits-injective draw draw' (suc rounds) i (suc k) h h' e lt =
    let n : i + suc k ≡ i + 1 + k = omega arith in
    rw n (hex_digits-injective draw draw' rounds (i + 1) k h h' (ground arith) (omega arith))

-- Two ids made at non-negative times, of draws below 16, are equal only if they were made in the
-- same second from the same sixteen draws.
pub generate_session_id-injective :
    (n m : ℕ) (draw draw' : ℕ → ℕ)
    → IsDraw draw
    → IsDraw draw'
    → generate_session_id (pos n) draw ≡ generate_session_id (pos m) draw'
    → (n ≡ m) × ((k : ℕ) → k < 16 → draw k ≡ draw' k)
unfolding generate_session_id to_string
generate_session_id-injective n m draw draw' h h' e =
    let (same_time, same_draws) =
      append-injective_at b'_' (decimal n) (decimal m) (hex_digits draw 16 0)
        (hex_digits draw' 16 0) (lacks_of_digits (decimal n) (decimal-all_digits n))
        (lacks_of_digits (decimal m) (decimal-all_digits m)) e in
    (
      sym (read_decimal-decimal n) ∙ ap read_decimal same_time ∙ read_decimal-decimal m,
      λ k lt.
          let z : 0 + k ≡ k = omega arith in
          rw z at (hex_digits-injective draw draw' 16 0 k h h' same_draws lt),
    )
