-- ===== src/Logger/Target.antt =====
-- Logger.hpp: the file that a file strategy appends to.
use study_code.Prelude.{
  ◌≡◌, refl, ap, ◌∙◌, Bool, true, false, [], ◌∷◌, ◌++◌, append_assoc, ◌==◌, if◌then◌else◌,
  Bool-cases, inl, inr,
}
use study_code.Text.{Text, text_eq}
use study_code.Logger.{new_file_strategy, last_is, targetlog}

-- A path as the file system reads it: a row of slashes counts as one. `after` tells whether a slash
-- stands before.
abbrev squeeze : Bool → Text → Text
squeeze after [] = []
squeeze true (c ∷ s) = if c == b'/' then squeeze true s else c ∷ squeeze false s
squeeze false (c ∷ s) = if c == b'/' then c ∷ squeeze true s else c ∷ squeeze false s

abbrev pub resolved : Text → Text
resolved path = squeeze false path

-- A second slash makes no difference.
squeeze_slash :
    (after : Bool) (s rest : Text)
    → squeeze after (s ++ (b'/' ∷ (b'/' ∷ rest))) ≡ squeeze after (s ++ (b'/' ∷ rest))
squeeze_slash true [] rest = refl
squeeze_slash false [] rest = refl
squeeze_slash true (c ∷ s) rest = elim (Bool-cases (c == b'/')) [
  | inl slash ↦ rw slash (squeeze_slash true s rest)
  | inr other ↦ rw other (ap (λ l. c ∷ l) (squeeze_slash false s rest))
]
squeeze_slash false (c ∷ s) rest = elim (Bool-cases (c == b'/')) [
  | inl slash ↦ rw slash (ap (λ l. c ∷ l) (squeeze_slash true s rest))
  | inr other ↦ rw other (ap (λ l. c ∷ l) (squeeze_slash false s rest))
]

pub new_file_strategy-targetlog :
    (exists : Bool) (logpath logfilename : Text)
    → resolved (targetlog (new_file_strategy exists logpath logfilename))
      ≡ resolved (logpath ++ (b'/' ∷ logfilename))
unfolding targetlog new_file_strategy
new_file_strategy-targetlog true logpath logfilename = refl
new_file_strategy-targetlog false logpath logfilename = elim (Bool-cases (last_is b'/' logpath)) [
  | inl slash ↦ rw slash refl
  | inr none_there ↦ elim (Bool-cases (text_eq logpath [])) [
    | inl empty ↦ rw (none_there, empty) refl
    | inr path ↦
        rw (none_there, path)
          (ap (λ p. squeeze false p) (append_assoc logpath (b'/' ∷ []) (b'/' ∷ logfilename))
            ∙ squeeze_slash false logpath logfilename)
  ]
]
