-- ===== src/Text/Buffer.antt =====
-- A character buffer that was cleared, filled from the front and read as a C string.
use study_code.Prelude.{
  ℕ, zero, suc, ap, length, ◌≤◌, ◌<◌, ◌≡◌, refl, true, none, some, [], ◌∷◌, ◌++◌, arith, replicate,
  ◌==◌, Bool-cases, inl, inr,
}
use study_code.Text.{Text, c_string, terminated, or_empty}
use study_code.Text.Search.{take_all}
use study_code.Text.Split.{lacks}

-- A text without a NUL, up to the NUL behind it.
pub c_string-append : (s r : Text) → lacks 0 s ≡ true → c_string (s ++ (0 ∷ r)) ≡ some s
unfolding c_string
c_string-append [] r h = refl
c_string-append (c ∷ s) r h = ground (arith, c_string-append s r)

c_string-replicate :
    (s : Text) (n : ℕ) → (t : Text) × (c_string (s ++ replicate (suc n) 0) ≡ some t)
unfolding c_string
c_string-replicate [] n = ([], refl)
c_string-replicate (c ∷ s) n = elim (Bool-cases (c == 0)) [
  | inl e ↦ ([], ground arith)
  | inr e ↦ let (t, f) = c_string-replicate s n in (c ∷ t, ground (arith, f))
]

pub c_string-lacks : (s : Text) → lacks 0 s ≡ true → c_string s ≡ none
unfolding c_string
c_string-lacks [] h = refl
c_string-lacks (c ∷ s) h = ground (arith, c_string-lacks s)

pub c_string-fill :
    (s : Text) (m : ℕ) → 0 < m → (t : Text) × (c_string (s ++ replicate m 0) ≡ some t)
c_string-fill s zero h = absurd (omega arith)
c_string-fill s (suc n) h = c_string-replicate s n

pub c_string-fill_eq :
    (s : Text) (m : ℕ) → lacks 0 s ≡ true → 0 < m → c_string (s ++ replicate m 0) ≡ some s
c_string-fill_eq s zero h lt = absurd (omega arith)
c_string-fill_eq s (suc m) h lt = c_string-append s (replicate m 0) h

-- What fits and has no NUL is read as it is.
pub terminated-whole :
    (size : ℕ) (s : Text) → length s ≤ size → lacks 0 s ≡ true → terminated size s ≡ s
unfolding terminated or_empty
terminated-whole size s h k = rw (take_all size s h) (ap or_empty (c_string-append s [] k))
