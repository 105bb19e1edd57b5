-- ===== src/Text/Trim.antt =====
-- Trimming by `erase`, `find_first_not_of` and `find_last_not_of`.
use study_code.Prelude.{
  ℕ, ◌≡◌, refl, ◌∙◌, inl, inr, Bool, true, false, none, [], ◌∷◌, ◌++◌, arith, if◌then◌else◌,
  Bool-cases, Option-cases,
}
use study_code.Text.{Text, erase, one_of, find_first_not_of, find_last_not_of, next_pos}

-- `s.erase(0, s.find_first_not_of(set))`
unfoldable pub trim_front : Text → Text → Text
unfolding erase find_first_not_of
trim_front set s = erase s 0 (find_first_not_of set s)

-- `s.erase(s.find_last_not_of(set) + 1)`
unfoldable pub trim_back : Text → Text → Text
unfolding erase find_last_not_of
trim_back set s = erase s (next_pos (find_last_not_of set s)) none

abbrev pub starts_outside : Text → Text → Bool
starts_outside set [] = true
starts_outside set (c ∷ s) = if one_of set c then false else true

abbrev pub ends_outside : Text → Text → Bool
ends_outside set [] = true
ends_outside set (c ∷ []) = if one_of set c then false else true
ends_outside set (c ∷ d ∷ s) = ends_outside set (d ∷ s)

abbrev pub all_in : Text → Text → Bool
all_in set [] = true
all_in set (c ∷ s) = if one_of set c then all_in set s else false

-- What the two trims compute, by recursion on the text.
abbrev strip_front : Text → Text → Text
strip_front set [] = []
strip_front set (c ∷ s) = if one_of set c then strip_front set s else c ∷ s

abbrev keep_back : Bool → ℕ → Text → Text
keep_back b c (d ∷ s) = c ∷ d ∷ s
keep_back true c [] = []
keep_back false c [] = c ∷ []

abbrev strip_back : Text → Text → Text
strip_back set [] = []
strip_back set (c ∷ s) = keep_back (one_of set c) c (strip_back set s)

trim_front-strip : (set s : Text) → trim_front set s ≡ strip_front set s
unfolding trim_front
trim_front-strip set [] = refl
trim_front-strip set (c ∷ s) = elim (Bool-cases (one_of set c)) [
  | inl e ↦ elim (Option-cases (find_first_not_of set s)) [
    | inl n ↦ ground (arith, trim_front-strip set s)
    | inr (j, f) ↦ ground (arith, trim_front-strip set s)
  ]
  | inr e ↦ ground arith
]

trim_back-strip : (set s : Text) → trim_back set s ≡ strip_back set s
unfolding trim_back
trim_back-strip set [] = refl
trim_back-strip set (c ∷ []) = ground arith
trim_back-strip set (c ∷ d ∷ s) = elim (Option-cases (find_last_not_of set (d ∷ s))) [
  | inl n ↦ ground (arith, trim_back-strip set (d ∷ s))
  | inr (j, f) ↦ ground (arith, trim_back-strip set (d ∷ s))
]

strip_front_id : (set s : Text) → starts_outside set s ≡ true → strip_front set s ≡ s
strip_front_id set [] h = refl
strip_front_id set (c ∷ s) h = ground arith

strip_back_id : (set s : Text) → ends_outside set s ≡ true → strip_back set s ≡ s
strip_back_id set [] h = refl
strip_back_id set (c ∷ []) h = ground arith
strip_back_id set (c ∷ d ∷ s) h = rw (strip_back_id set (d ∷ s) h)

strip_back-all_in : (set s : Text) → all_in set s ≡ true → strip_back set s ≡ []
strip_back-all_in set [] h = refl
strip_back-all_in set (c ∷ s) h = ground (arith, strip_back-all_in set s)

strip_back-append :
    (set s r : Text) → all_in set r ≡ true → strip_back set (s ++ r) ≡ strip_back set s
strip_back-append set [] r h = strip_back-all_in set r h
strip_back-append set (c ∷ s) r h = rw (strip_back-append set s r h)

strip_front-append :
    (set r s : Text) → all_in set r ≡ true → strip_front set (r ++ s) ≡ strip_front set s
strip_front-append set [] s h = refl
strip_front-append set (c ∷ r) s h = ground (arith, strip_front-append set r s)

-- A text between leading and trailing bytes of the set, itself neither starting nor ending there,
-- is what the trims leave.
pub trim_front-append :
    (set r s : Text)
    → all_in set r ≡ true
    → starts_outside set s ≡ true
    → trim_front set (r ++ s) ≡ s
trim_front-append set r s h k =
    trim_front-strip set (r ++ s) ∙ strip_front-append set r s h ∙ strip_front_id set s k

pub trim_back-append :
    (set s r : Text) → all_in set r ≡ true → ends_outside set s ≡ true → trim_back set (s ++ r) ≡ s
trim_back-append set s r h k =
    trim_back-strip set (s ++ r) ∙ strip_back-append set s r h ∙ strip_back_id set s k
