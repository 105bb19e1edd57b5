-- ===== src/Logger/Lines.antt =====
-- Logger.hpp: what a run of log statements writes.
use study_code.Prelude.{
  ◌≡◌, refl, sym, ◌∙◌, Bool, true, false, Option, none, some, List, [], ◌∷◌, ◌++◌, append_assoc,
  append-nil, if◌then◌else◌, Bool-cases, inl, inr,
}
use study_code.Text.{Text, text_eq}
use study_code.Logger.{
  LogStrategy, console, file, Sinks, targetlog, sync_log, Statement, log_message, put_infos, log,
  log_all,
}

abbrev pub joined : List Text → Text
joined [] = []
joined (i ∷ infos) = i ++ joined infos

-- A statement's line: the bracketed head, the operands in order, a newline.
abbrev pub line_of : Statement → Text
line_of s = (log_message s [] ++ joined s.infos) ++ (b'\n' ∷ [])

abbrev pub lines_of : List Statement → Text
lines_of [] = []
lines_of (s ∷ ss) = line_of s ++ lines_of ss

put_infos_lem : (s : Text) (infos : List Text) → put_infos s infos ≡ s ++ joined infos
unfolding put_infos
put_infos_lem s [] = sym (append-nil s)
put_infos_lem s (i ∷ infos) = put_infos_lem (s ++ i) infos ∙ append_assoc s i (joined infos)

abbrev pub writes_to : Option LogStrategy → Text → Bool
writes_to none path = false
writes_to (some console) path = false
writes_to (some (file f)) path = text_eq path (targetlog f)

abbrev pub writes_cerr : Option LogStrategy → Bool
writes_cerr none = false
writes_cerr (some console) = true
writes_cerr (some (file f)) = false

abbrev pub can_open : (Text → Bool) → Option LogStrategy → Bool
can_open is_open none = true
can_open is_open (some console) = true
can_open is_open (some (file f)) = is_open (targetlog f)

abbrev written : Bool → Text → Text
written true s = s
written false s = []

abbrev pub Wrote : Option LogStrategy → Text → Sinks → Sinks → Type 0
Wrote strategy out before after =
    (after.cerr ≡ before.cerr ++ (if writes_cerr strategy then out else []))
    × ((path : Text)
        → after.files path ≡ before.files path ++ (if writes_to strategy path then out else []))

log-Wrote :
    (is_open : Text → Bool) (strategy : Option LogStrategy) (s : Statement) (w : Sinks)
    → can_open is_open strategy ≡ true
    → Wrote strategy (line_of s) w (log is_open strategy s w)
unfolding log sync_log
log-Wrote is_open none s w h = (sym (append-nil w.cerr), λ path. sym (append-nil (w.files path)))
log-Wrote is_open (some console) s w h =
    (rw (put_infos_lem (log_message s []) s.infos) refl, λ path. sym (append-nil (w.files path)))
log-Wrote is_open (some (file f)) s w h =
    rw (h, put_infos_lem (log_message s []) s.infos)
      (
        sym (append-nil w.cerr),
        λ path. elim (Bool-cases (text_eq path (targetlog f))) [
          | inl here ↦ rw here refl
          | inr there ↦ rw there (sym (append-nil (w.files path)))
        ],
      )

chosen-append :
    (b : Bool) (x y z out out' : Text)
    → y ≡ x ++ (if b then out else [])
    → z ≡ y ++ (if b then out' else [])
    → z ≡ x ++ (if b then out ++ out' else [])
chosen-append true x y z out out' e e' = e' ∙ rw e (append_assoc x out out')
chosen-append false x y z out out' e e' = e' ∙ rw (e, append-nil x) (append-nil x)

Wrote-append :
    (strategy : Option LogStrategy) (a b : Text) (w w' w'' : Sinks)
    → Wrote strategy a w w'
    → Wrote strategy b w' w''
    → Wrote strategy (a ++ b) w w''
Wrote-append strategy a b w w' w'' (c, f) (c', f') = (
  chosen-append (writes_cerr strategy) w.cerr w'.cerr w''.cerr a b c c',
  λ path.
      chosen-append (writes_to strategy path) (w.files path) (w'.files path) (w''.files path) a b
        (f path) (f' path),
)

chosen-nil : (b : Bool) (x : Text) → x ≡ x ++ (if b then [] else [])
chosen-nil true x = sym (append-nil x)
chosen-nil false x = sym (append-nil x)

-- Over any statements, where a file strategy's file can be opened, the strategy's sink, the error
-- stream or the one target file, gets the line of each statement in order behind what it had, and
-- everything else stays; without a strategy nothing is written.
pub log_all-Wrote :
    (is_open : Text → Bool) (strategy : Option LogStrategy) (ss : List Statement) (w : Sinks)
    → can_open is_open strategy ≡ true
    → Wrote strategy (lines_of ss) w (log_all is_open strategy ss w)
unfolding log_all
log_all-Wrote is_open strategy [] w h = (
  chosen-nil (writes_cerr strategy) w.cerr,
  λ path. chosen-nil (writes_to strategy path) (w.files path),
)
log_all-Wrote is_open strategy (s ∷ ss) w h =
    Wrote-append strategy (line_of s) (lines_of ss) w (log is_open strategy s w)
      (log_all is_open strategy ss (log is_open strategy s w)) (log-Wrote is_open strategy s w h)
      (log_all-Wrote is_open strategy ss (log is_open strategy s w) h)
