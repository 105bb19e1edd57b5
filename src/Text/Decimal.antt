-- ===== src/Text/Decimal.antt =====
-- Decimal output of integers: `std::to_string` and `ss << n`.
use study_code.Prelude.{
  ℕ, zero, suc, ◌+◌, ◌*◌, ◌/◌, ◌%◌, ◌<◌, ◌≡◌, ◌==◌, refl, ap, ◌∙◌, ◌-◌, Bool, true, false, [], ◌∷◌,
  arith, ltb, leb, if◌then◌else◌, ◌&&◌, Bool-cases, inl, inr, ◌^◌, ◌≤◌, length,
}
use study_code.Prelude.Int.{ℤ, pos, negsuc}
use study_code.Text.{Text}
use study_code.Text.Split.{lacks}

-- The digits of `n` in front of `acc`; `fuel` bounds their number.
digits : ℕ → ℕ → Text → Text
digits zero n acc = acc
digits (suc fuel) n acc =
    let rest = digits fuel (n / 10) ((b'0' + n % 10) ∷ acc) in
    if ltb n 10 then (b'0' + n) ∷ acc else rest

unfoldable pub decimal : ℕ → Text
unfolding digits
decimal n = digits (suc n) n []

unfoldable pub to_string : ℤ → Text
unfolding decimal
to_string (pos n) = decimal n
to_string (negsuc n) = b'-' ∷ decimal (suc n)

abbrev pub is_digit : ℕ → Bool
is_digit c = leb b'0' c && leb c b'9'

abbrev pub all_digits : Text → Bool
all_digits [] = true
all_digits (c ∷ s) = if is_digit c then all_digits s else false

digits-all_digits :
    (fuel n : ℕ) (acc : Text) → all_digits acc ≡ true → all_digits (digits fuel n acc) ≡ true
unfolding digits
digits-all_digits zero n acc h = h
digits-all_digits (suc fuel) n acc h =
    ground (arith, digits-all_digits fuel (n / 10) ((b'0' + n % 10) ∷ acc))

pub decimal-all_digits : (n : ℕ) → all_digits (decimal n) ≡ true
unfolding decimal
decimal-all_digits n = digits-all_digits (suc n) n [] refl

-- What a row of digits stands for, read from the left with `acc` before it.
abbrev value : ℕ → Text → ℕ
value acc [] = acc
value acc (c ∷ s) = value (acc * 10 + (c - b'0')) s

abbrev pub read_decimal : Text → ℕ
read_decimal s = value 0 s

digits-value : (fuel n : ℕ) (acc : Text) → n < fuel → value 0 (digits fuel n acc) ≡ value n acc
unfolding digits
digits-value zero n acc h = absurd (omega arith)
digits-value (suc fuel) n acc h = elim (Bool-cases (ltb n 10)) [
  | inl small ↦ rw small (ap (λ k. value k acc) (omega arith))
  | inr large ↦ rw large (
      digits-value fuel (n / 10) ((b'0' + n % 10) ∷ acc) (ground arith)
      ∙ ap (λ k. value k acc) (omega arith))
]

-- The fuel is enough: the digits stand for the number.
pub read_decimal-decimal : (n : ℕ) → read_decimal (decimal n) ≡ n
unfolding decimal
read_decimal-decimal n = digits-value (suc n) n [] (omega arith)

digits-length :
    (k fuel n : ℕ) (acc : Text) → n < 10 ^ suc k → length (digits fuel n acc) ≤ suc k + length acc
unfolding digits
digits-length k zero n acc h = omega arith
digits-length zero (suc fuel) n acc h = ground arith
digits-length (suc k) (suc fuel) n acc h =
    ground (arith, digits-length k fuel (n / 10) ((b'0' + n % 10) ∷ acc) (omega (arith, h)))

-- The number that is printed behind the sign.
abbrev pub magnitude : ℤ → ℕ
magnitude (pos n) = n
magnitude (negsuc n) = suc n

pub length-decimal : (k n : ℕ) → n < 10 ^ suc k → length (decimal n) ≤ suc k
unfolding decimal
length-decimal k n h = omega (arith, digits-length k (suc n) n [] h)

pub length-to_string : (k : ℕ) (z : ℤ) → magnitude z < 10 ^ suc k → length (to_string z) ≤ 2 + k
unfolding to_string decimal
length-to_string k (pos n) h = omega (arith, digits-length k (suc n) n [] h)
length-to_string k (negsuc n) h = omega (arith, digits-length k (suc (suc n)) (suc n) [] h)

all_digits-lacks : (d : ℕ) (s : Text) → is_digit d ≡ false → all_digits s ≡ true → lacks d s ≡ true
all_digits-lacks d [] e h = refl
all_digits-lacks d (c ∷ s) e h = ground (arith, all_digits-lacks d s)

-- A number's text has digits, and a sign before them.
pub to_string-lacks :
    (d : ℕ) (z : ℤ) → is_digit d ≡ false → (b'-' == d) ≡ false → lacks d (to_string z) ≡ true
unfolding to_string
to_string-lacks d (pos n) e h = all_digits-lacks d (decimal n) e (decimal-all_digits n)
to_string-lacks d (negsuc n) e h =
    rw h (all_digits-lacks d (decimal (suc n)) e (decimal-all_digits (suc n)))
