-- ===== src/Text/Search.antt =====
-- Lemmas on the comparison of texts and on `std::string::find`.
use study_code.Prelude.{
  ℕ, zero, suc, sym, ◌∙◌, ◌+◌, ◌≤◌, ◌≡◌, refl, ap, ◌↔◌, inl, inr, true, some, List, [], ◌∷◌, ◌++◌,
  arith, Bool-cases, Option-cases, length, take, drop,
}
use study_code.Text.{Text, text_eq, starts_with, find, found}

pub text_eq_iff : (s t : Text) → (text_eq s t ≡ true) ↔ (s ≡ t)
unfolding text_eq
text_eq_iff [] [] = ground arith
text_eq_iff [] (b ∷ t) = ground arith
text_eq_iff (a ∷ s) [] = ground arith
text_eq_iff (a ∷ s) (b ∷ t) = ground (arith, text_eq_iff s t)

pub text_eq_refl : (s : Text) → text_eq s s ≡ true
text_eq_refl s = (text_eq_iff s s).1 refl

pub starts_with-append_self : (pat s : Text) → starts_with pat (pat ++ s) ≡ true
unfolding starts_with
starts_with-append_self [] s = refl
starts_with-append_self (p ∷ pat) s = ground (arith, starts_with-append_self pat s)

-- Of a text at least as long as the pattern, what follows does not matter.
pub starts_with-append :
    (pat s r : Text) → length pat ≤ length s → starts_with pat (s ++ r) ≡ starts_with pat s
unfolding starts_with
starts_with-append [] s r h = refl
starts_with-append (p ∷ pat) [] r h = absurd (omega arith)
starts_with-append (p ∷ pat) (c ∷ s) r h = rw (starts_with-append pat s r (omega arith))

pub starts_with-le : (pat s : Text) → starts_with pat s ≡ true → length pat ≤ length s
unfolding starts_with
starts_with-le [] s h = omega arith
starts_with-le (p ∷ pat) [] h = cc
starts_with-le (p ∷ pat) (c ∷ s) h = ground (arith, starts_with-le pat s)

pub starts_with_split : (pat s : Text) → starts_with pat s ≡ true → s ≡ pat ++ drop (length pat) s
unfolding starts_with
starts_with_split [] s h = refl
starts_with_split (p ∷ pat) [] h = cc
starts_with_split (p ∷ pat) (c ∷ s) h = ground (arith, starts_with_split pat s)

pub find_bound : (pat s : Text) (i : ℕ) → find pat s ≡ some i → i + length pat ≤ length s
unfolding find
find_bound pat [] i h = ground (arith, starts_with-le pat [])
find_bound pat (c ∷ s) i h = elim (Bool-cases (starts_with pat (c ∷ s))) [
  | inl e ↦ ground (arith, starts_with-le pat (c ∷ s))
  | inr e ↦ elim (Option-cases (find pat s)) [
    | inl n ↦ ground (arith, n)
    | inr (j, f) ↦ ground (arith, f, find_bound pat s j)
  ]
]

-- A text found stands where it is found.
pub find_at : (pat s : Text) (i : ℕ) → find pat s ≡ some i → starts_with pat (drop i s) ≡ true
unfolding find
find_at pat [] i h = ground arith
find_at pat (c ∷ s) i h = elim (Bool-cases (starts_with pat (c ∷ s))) [
  | inl e ↦ ground arith
  | inr e ↦ elim (Option-cases (find pat s)) [
    | inl n ↦ ground (arith, n)
    | inr (j, f) ↦ ground (arith, f, find_at pat s j)
  ]
]

-- Text behind the first occurrence does not move it.
pub find-append : (pat s r : Text) (i : ℕ) → find pat s ≡ some i → find pat (s ++ r) ≡ some i
unfolding find
find-append [] [] [] i h = h
find-append [] [] (c ∷ r) i h = h
find-append (p ∷ pat) [] r i h = cc
find-append pat (c ∷ s) r i h = elim (Bool-cases (starts_with pat (c ∷ s))) [
  | inl e ↦ ground (arith, starts_with-le pat (c ∷ s) e, starts_with-append pat (c ∷ s) r)
  | inr e ↦ elim (Option-cases (find pat s)) [
    | inl n ↦ ground (arith, n)
    | inr (j, f) ↦
        ground
          (arith, f, find_bound pat s j f, find-append pat s r j, starts_with-append pat (c ∷ s) r)
  ]
]

-- `pat` is first found at the length of what stands before it.
abbrev pub FirstAfter : Text → Text → Type 0
FirstAfter pat pre = find pat (pre ++ pat) ≡ some (length pre)

pub find-FirstAfter :
    (pat pre r : Text) → FirstAfter pat pre → find pat (pre ++ pat ++ r) ≡ some (length pre)
find-FirstAfter pat pre r h = find-append pat (pre ++ pat) r (length pre) h

pub drop-length {ℓ} : {A : Type ℓ} (pre r : List A) → drop (length pre) (pre ++ r) ≡ r
drop-length [] r = refl
drop-length (c ∷ pre) r = drop-length pre r

pub take-length {ℓ} : {A : Type ℓ} (pre r : List A) → take (length pre) (pre ++ r) ≡ pre
take-length [] r = refl
take-length (c ∷ pre) r = ap (◌∷◌ c) (take-length pre r)

drop-nil {ℓ} : {A : Type ℓ} (n : ℕ) → drop {A = A} n [] ≡ []
drop-nil zero = refl
drop-nil (suc n) = refl

pub drop-add {ℓ} : {A : Type ℓ} (a b : ℕ) (s : List A) → drop (a + b) s ≡ drop b (drop a s)
drop-add zero b s = let e : 0 + b ≡ b = omega arith in rw e
drop-add (suc a) b [] = drop-nil (suc a + b) ∙ sym (drop-nil b)
drop-add (suc a) b (c ∷ s) = let e : suc a + b ≡ suc (a + b) = omega arith in rw e (drop-add a b s)

pub length-drop_add :
    {A : Type 0} (a : ℕ) (s : List A) → a ≤ length s → length (drop a s) + a ≡ length s
length-drop_add zero s h = omega arith
length-drop_add (suc a) [] h = absurd (omega arith)
length-drop_add (suc a) (c ∷ s) h = omega (arith, length-drop_add a s)

pub take_all {ℓ} : {A : Type ℓ} (n : ℕ) (s : List A) → length s ≤ n → take n s ≡ s
take_all zero [] h = refl
take_all zero (c ∷ s) h = absurd (omega arith)
take_all (suc n) [] h = refl
take_all (suc n) (c ∷ s) h = ap (◌∷◌ c) (take_all n s (omega arith))

pub find_anywhere : (pat pre post : Text) → found (find pat (pre ++ (pat ++ post))) ≡ true
unfolding find
find_anywhere [] [] [] = refl
find_anywhere [] [] (c ∷ post) = refl
find_anywhere (p ∷ pat) [] post = rw (starts_with-append_self (p ∷ pat) post, starts_with) refl
find_anywhere pat (c ∷ pre) post =
    elim (Bool-cases (starts_with pat (c ∷ (pre ++ (pat ++ post))))) [
      | inl e ↦ ground arith
      | inr e ↦ ground (arith, find_anywhere pat pre post)
    ]
