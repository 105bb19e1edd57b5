-- ===== src/Text/Split.antt =====
-- Splitting at a byte: `std::getline(ss, piece, delim)` and `find` of one byte.
use study_code.Prelude.{
  ◌≢◌, ℕ, zero, suc, take, ◌≡◌, refl, Bool, true, false, ◌==◌, some, none, [], ◌∷◌, ◌++◌, arith,
  if◌then◌else◌, length,
}
use study_code.Text.{Text, find, getlines}
use study_code.Text.Search.{starts_with-append_self}
use study_code.Text.Trim.{ends_outside}

-- No byte of the text is `d`.
abbrev pub lacks : ℕ → Text → Bool
lacks d [] = true
lacks d (c ∷ s) = if c == d then false else lacks d s

pub lacks-append :
    (d : ℕ) (s t : Text) → lacks d s ≡ true → lacks d t ≡ true → lacks d (s ++ t) ≡ true
lacks-append d [] t h k = k
lacks-append d (c ∷ s) t h k = ground (arith, lacks-append d s t)

pub take-lacks : (n d : ℕ) (s : Text) → lacks d s ≡ true → lacks d (take n s) ≡ true
take-lacks zero d s h = refl
take-lacks (suc n) d [] h = refl
take-lacks (suc n) d (c ∷ s) h = ground (arith, take-lacks n d s)

-- A pattern that begins with `d` is first found behind a text that lacks `d`.
pub find-lacks :
    (d : ℕ) (pat s r : Text)
    → lacks d s ≡ true
    → find (d ∷ pat) (s ++ ((d ∷ pat) ++ r)) ≡ some (length s)
unfolding find
find-lacks d pat [] r h = ground (arith, starts_with-append_self pat r)
find-lacks d pat (c ∷ s) r h = ground (arith, find-lacks d pat s r)

pub find-lacks-none : (d : ℕ) (s : Text) → lacks d s ≡ true → find (d ∷ []) s ≡ none
unfolding find
find-lacks-none d [] h = refl
find-lacks-none d (c ∷ s) h = ground (arith, find-lacks-none d s)

pub getlines-append :
    (d : ℕ) (s r : Text) → lacks d s ≡ true → getlines d (s ++ (d ∷ r)) ≡ s ∷ getlines d r
unfolding getlines
getlines-append d [] r h = ground arith
getlines-append d (c ∷ s) r h = ground (arith, getlines-append d s r)

getlines-lacks : (d c : ℕ) (s : Text) → lacks d (c ∷ s) ≡ true → getlines d (c ∷ s) ≡ (c ∷ s) ∷ []
unfolding getlines
getlines-lacks d c [] h = ground arith
getlines-lacks d c (e ∷ s) h = ground (arith, getlines-lacks d e s)

pub getlines_one : (d : ℕ) (s : Text) → lacks d s ≡ true → s ≢ [] → getlines d s ≡ s ∷ []
getlines_one d [] h k = absurd (k refl)
getlines_one d (c ∷ s) h k = getlines-lacks d c s h

-- A text splits at its first `d` in one way.
pub append-injective_at :
    (d : ℕ) (s t r u : Text)
    → lacks d s ≡ true
    → lacks d t ≡ true
    → s ++ (d ∷ r) ≡ t ++ (d ∷ u)
    → (s ≡ t) × (r ≡ u)
append-injective_at d [] [] r u h k e = ground arith
append-injective_at d [] (b ∷ t) r u h k e = ground arith
append-injective_at d (a ∷ s) [] r u h k e = ground arith
append-injective_at d (a ∷ s) (b ∷ t) r u h k e = ground (arith, append-injective_at d s t r u)

-- A pattern whose first byte is missing is not found.
pub find-lacks_all : (d : ℕ) (pat s : Text) → lacks d s ≡ true → find (d ∷ pat) s ≡ none
unfolding find
find-lacks_all d pat [] h = refl
find-lacks_all d pat (c ∷ s) h = ground (arith, find-lacks_all d pat s)

pub ends_outside-lacks :
    (c : ℕ) (s : Text) → lacks b' ' (c ∷ s) ≡ true → ends_outside (b' ' ∷ []) (c ∷ s) ≡ true
ends_outside-lacks c [] h = ground arith
ends_outside-lacks c (d ∷ s) h = ground (arith, ends_outside-lacks d s)
