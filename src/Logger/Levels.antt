-- ===== src/Logger/Levels.antt =====
-- Logger.hpp: the level of a message can be read back from its line.
use study_code.Prelude.{
  ℕ, ◌≡◌, refl, ap, ◌∙◌, true, false, Option, none, some, List, [], ◌∷◌, ◌++◌, append_assoc, ◌==◌,
  if◌then◌else◌,
}
use study_code.Prelude.Int.{pos, ◌+ℤ◌}
use study_code.Text.{Text, utf8, text_eq, getlines}
use study_code.Text.Split.{lacks, take-lacks, lacks-append, getlines-append}
use study_code.Text.Decimal.{to_string, to_string-lacks}
use study_code.Logger.Lines.{joined, line_of}
use study_code.Logger.{
  LogLevel, info, waring, error, fatal, debug, log_level_to_message, Clock, formatted,
  get_current_time, Statement, log_message,
}

-- The level with the given name.
abbrev level_named : Text → Option LogLevel
level_named s =
    if text_eq s (utf8 "Info")
    then some info
    else if text_eq s (utf8 "Waring")
    then some waring
    else if text_eq s (utf8 "Error")
    then some error
    else if text_eq s (utf8 "Fatal")
    then some fatal
    else if text_eq s (utf8 "Debug")
    then some debug
    else none

-- What stands in the second brackets of a line.
abbrev second_field : List Text → Option LogLevel
second_field (t ∷ ((c ∷ s) ∷ rest)) = level_named s
second_field (t ∷ ([] ∷ rest)) = none
second_field (t ∷ []) = none
second_field [] = none

abbrev pub level_of : Text → Option LogLevel
level_of line = second_field (getlines b']' line)

between-lacks :
    (s : Text) (c : ℕ) (rest : Text)
    → lacks b']' s ≡ true
    → (c == b']') ≡ false
    → lacks b']' rest ≡ true
    → lacks b']' (s ++ (c ∷ rest)) ≡ true
between-lacks s c rest h e g = lacks-append b']' s (c ∷ rest) h (rw e g)

formatted-lacks : (c : Clock) → lacks b']' (formatted c) ≡ true
unfolding formatted
formatted-lacks c =
    between-lacks (to_string (c.tm_year +ℤ pos 1900)) b'-' _
      (to_string-lacks b']' (c.tm_year +ℤ pos 1900) refl refl) refl
      (between-lacks (to_string (c.tm_mon +ℤ pos 1)) b'-' _
        (to_string-lacks b']' (c.tm_mon +ℤ pos 1) refl refl) refl
        (between-lacks (to_string c.tm_mday) b' ' _ (to_string-lacks b']' c.tm_mday refl refl) refl
          (between-lacks (to_string c.tm_hour) b':' _ (to_string-lacks b']' c.tm_hour refl refl)
            refl
            (between-lacks (to_string c.tm_min) b':' _ (to_string-lacks b']' c.tm_min refl refl)
              refl
              (between-lacks (to_string c.tm_sec) b'.' _ (to_string-lacks b']' c.tm_sec refl refl)
                refl (to_string-lacks b']' c.tv_usec refl refl))))))

named : (l : LogLevel) → level_named (log_level_to_message l) ≡ some l
unfolding log_level_to_message utf8 text_eq
named info = refl
named waring = refl
named error = refl
named fatal = refl
named debug = refl

level-lacks : (l : LogLevel) → lacks b']' (log_level_to_message l) ≡ true
unfolding log_level_to_message utf8
level-lacks info = refl
level-lacks waring = refl
level-lacks error = refl
level-lacks fatal = refl
level-lacks debug = refl

log_message-append : (s : Statement) (r : Text) → log_message s [] ++ r ≡ log_message s r
unfolding log_message
log_message-append s r = simp append_assoc

level_of-log_message : (s : Statement) (rest : Text) → level_of (log_message s rest) ≡ some s.level
unfolding log_message get_current_time
level_of-log_message s rest =
    rw
      (getlines-append b']' (b'[' ∷ get_current_time s.clock) _
        (take-lacks 127 b']' (formatted s.clock) (formatted-lacks s.clock)))
      (rw (getlines-append b']' (b'[' ∷ log_level_to_message s.level) _ (level-lacks s.level))
        (named s.level))

-- Whatever the time, the process, the file and the operands are, the level of a statement is read
-- back from the second brackets of its line.
pub level_of-line_of : (s : Statement) → level_of (line_of s) ≡ some s.level
level_of-line_of s =
    ap level_of (
      append_assoc (log_message s []) (joined s.infos) (b'\n' ∷ [])
      ∙ log_message-append s (joined s.infos ++ (b'\n' ∷ [])))
    ∙ level_of-log_message s (joined s.infos ++ (b'\n' ∷ []))
