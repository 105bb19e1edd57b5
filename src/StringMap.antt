-- ===== src/StringMap.antt =====
-- `std::unordered_map<std::string, V>` as the sources use it: the entries in some order, under
-- distinct keys (`HasUniqueKeys`). Clients compute with none of it and use the laws of `lookup`.
use study_code.Prelude.{◌≡◌, refl, Bool, Option, none, some, List, [], ◌∷◌, arith, if◌then◌else◌}
use study_code.Text.{Text, text_eq}
use study_code.Text.Search.{text_eq_iff}

abbrev pub StringMap {ℓ} : Type ℓ → Type ℓ
StringMap V = List (Text × V)

module _ {ℓ} {V : Type ℓ} where
  -- `find`, and `operator[]` where the key is there
  unfoldable pub lookup : Text → StringMap V → Option V
  lookup k [] = none
  lookup k ((j, v) ∷ m) = if text_eq j k then some v else lookup k m

  -- `m[k] = v`
  unfoldable pub insert : Text → V → StringMap V → StringMap V
  insert k v [] = (k, v) ∷ []
  insert k v ((j, w) ∷ m) = if text_eq j k then (j, v) ∷ m else (j, w) ∷ insert k v m

  -- `m.erase(k)`
  unfoldable pub erase : Text → StringMap V → StringMap V
  erase k [] = []
  erase k ((j, w) ∷ m) = let rest = erase k m in if text_eq j k then rest else (j, w) ∷ rest

  -- The loop that erases the entries whose value fails a test.
  unfoldable pub retain : (V → Bool) → StringMap V → StringMap V
  retain keep [] = []
  retain keep ((j, w) ∷ m) = let rest = retain keep m in if keep w then (j, w) ∷ rest else rest

  abbrev pub HasUniqueKeys : StringMap V → Type ℓ
  HasUniqueKeys [] = Unit
  HasUniqueKeys ((k, v) ∷ m) = (lookup k m ≡ none) × HasUniqueKeys m

  pub lookup-insert :
      (k j : Text) (v : V) (m : StringMap V)
      → lookup j (insert k v m) ≡ (if text_eq k j then some v else lookup j m)
  unfolding lookup insert
  lookup-insert k j v [] = refl
  lookup-insert k j v ((i, w) ∷ m) =
      ground (arith, text_eq_iff k j, text_eq_iff i k, text_eq_iff i j, lookup-insert k j v m)

  pub lookup-erase :
      (k j : Text) (m : StringMap V)
      → lookup j (erase k m) ≡ (if text_eq k j then none else lookup j m)
  unfolding lookup erase
  lookup-erase k j [] = ground arith
  lookup-erase k j ((i, w) ∷ m) =
      ground (arith, text_eq_iff k j, text_eq_iff i k, text_eq_iff i j, lookup-erase k j m)

  abbrev pub kept : (V → Bool) → Option V → Option V
  kept keep none = none
  kept keep (some v) = if keep v then some v else none

  pub lookup-retain :
      (keep : V → Bool) (j : Text) (m : StringMap V)
      → HasUniqueKeys m
      → lookup j (retain keep m) ≡ kept keep (lookup j m)
  unfolding lookup retain
  lookup-retain keep j [] h = refl
  lookup-retain keep j ((i, w) ∷ m) h =
      ground (arith, text_eq_iff i j, lookup-retain keep j m h.1, h.0)

  pub insert-HasUniqueKeys :
      (k : Text) (v : V) (m : StringMap V) → HasUniqueKeys m → HasUniqueKeys (insert k v m)
  unfolding insert lookup
  insert-HasUniqueKeys k v [] h = (refl, tt)
  insert-HasUniqueKeys k v ((i, w) ∷ m) h = ground (
    arith,
    insert-HasUniqueKeys k v m h.1,
    lookup-insert k i v m,
    text_eq_iff k i,
    text_eq_iff i k,
    h.0,
  )

  pub erase-HasUniqueKeys :
      (k : Text) (m : StringMap V) → HasUniqueKeys m → HasUniqueKeys (erase k m)
  unfolding erase lookup
  erase-HasUniqueKeys k [] h = tt
  erase-HasUniqueKeys k ((i, w) ∷ m) h =
      ground (arith, erase-HasUniqueKeys k m h.1, lookup-erase k i m, text_eq_iff k i, h.0)

  pub retain-HasUniqueKeys :
      (keep : V → Bool) (m : StringMap V) → HasUniqueKeys m → HasUniqueKeys (retain keep m)
  unfolding retain lookup
  retain-HasUniqueKeys keep [] h = tt
  retain-HasUniqueKeys keep ((i, w) ∷ m) h =
      ground (arith, retain-HasUniqueKeys keep m h.1, lookup-retain keep i m h.1, h.0)
