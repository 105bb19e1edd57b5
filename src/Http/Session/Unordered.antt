-- ===== src/Http/Session/Unordered.antt =====
-- http-server-cpp/src/SessionManager.cpp over an unordered table: two pools that answer every `find`
-- alike are one pool, in whatever order their entries lie.
use mathlib.Core.Quot
use mathlib.Core.Quot.{Quot, Quot-set}
use study_code.Prelude.{
  ◌≡◌, refl, sym, ap, ◌∙◌, Bool, Option, none, some, List, [], ◌∷◌, ◌++◌, arith, if◌then◌else◌,
  fun_ext,
}
use study_code.Prelude.Int.{ℤ, ltb_ℤ, ◌+ℤ◌}
use study_code.Text.{Text, text_eq}
use study_code.Text.Search.{text_eq_iff}
use study_code.StringMap.{lookup}
use study_code.Http.Session.{SessionManager, generate_session_id, is_session_valid}
use study_code.Http.Session.Laws.{IsValid, live, user_at, is_some, is_session_valid-user_at}
use study_code.Http.Session.Effects.{effect, step-lookup}
use study_code.Http.Session.Refine.{Call, creates, checks, destroys, clears, step, step-IsValid}

-- A pool with distinct ids.
abbrev pub Pool : Type 0
Pool = (mgr : SessionManager) × IsValid mgr

abbrev pub SameEntries : Pool → Pool → Type 0
SameEntries p q = (j : Text) → lookup j p.0.sessions ≡ lookup j q.0.sessions

abbrev pub Unordered : Type 0
Unordered = Quot SameEntries

pub Option-Text-set : IsSet (Option Text)
Option-Text-set = hlevel

pub Answers-set : IsSet (List Bool)
Answers-set = hlevel

-- Whom an id stands for at a time.
abbrev pub View : Type 0
View = ℤ → Text → Option Text

unfoldable pub view : Unordered → View
unfolding user_at
view u later j =
    Quot.lift Option-Text-set (λ p. user_at p.0 later j) (λ p q h. ap (live later) (h j)) u

-- What a call makes of a view.
unfoldable pub view_step : Call → View → View
view_step (creates username timeout id_time now draw) w later j =
    if text_eq (generate_session_id id_time draw) j
    then (if ltb_ℤ (now +ℤ timeout) later then none else some username)
    else w later j
view_step (checks session_id now) w later j =
    if text_eq session_id j
    then (if is_some (w now session_id) then w later j else none)
    else w later j
view_step (destroys session_id) w later j = if text_eq session_id j then none else w later j
view_step (clears now) w later j = if is_some (w now j) then w later j else none

-- The answer that a check gives by a view; other calls give none.
unfoldable pub view_answer : Call → View → List Bool
view_answer (checks session_id now) w = is_some (w now session_id) ∷ []
view_answer (creates username timeout id_time now draw) w = []
view_answer (destroys session_id) w = []
view_answer (clears now) w = []

-- The answer that a check returns.
unfoldable pub answer : Call → SessionManager → List Bool
answer (checks session_id now) mgr = (is_session_valid session_id now mgr).0 ∷ []
answer (creates username timeout id_time now draw) mgr = []
answer (destroys session_id) mgr = []
answer (clears now) mgr = []

step-user_at :
    (c : Call) (mgr : SessionManager) (later : ℤ) (j : Text)
    → IsValid mgr
    → user_at (step c mgr) later j ≡ view_step c (user_at mgr) later j
unfolding view_step user_at
step-user_at (creates username timeout id_time now draw) mgr later j v =
    ap (live later) (step-lookup (creates username timeout id_time now draw) mgr j v) ∙ ground arith
step-user_at (checks session_id now) mgr later j v =
    ap (live later) (step-lookup (checks session_id now) mgr j v)
    ∙ ground (arith, text_eq_iff session_id j)
step-user_at (destroys session_id) mgr later j v =
    ap (live later) (step-lookup (destroys session_id) mgr j v) ∙ ground arith
step-user_at (clears now) mgr later j v =
    ap (live later) (step-lookup (clears now) mgr j v) ∙ ground arith

answer-view : (c : Call) (mgr : SessionManager) → answer c mgr ≡ view_answer c (user_at mgr)
unfolding answer view_answer
answer-view (checks session_id now) mgr = rw (is_session_valid-user_at mgr session_id now) refl
answer-view (creates username timeout id_time now draw) mgr = refl
answer-view (destroys session_id) mgr = refl
answer-view (clears now) mgr = refl

pub answer-SameEntries : (c : Call) (p q : Pool) → SameEntries p q → answer c p.0 ≡ answer c q.0
unfolding view_answer user_at
answer-SameEntries (checks session_id now) p q h =
    answer-view (checks session_id now) p.0
    ∙ ap (λ o. is_some (live now o) ∷ []) (h session_id)
    ∙ sym (answer-view (checks session_id now) q.0)
answer-SameEntries (creates username timeout id_time now draw) p q h =
    answer-view (creates username timeout id_time now draw) p.0
    ∙ sym (answer-view (creates username timeout id_time now draw) q.0)
answer-SameEntries (destroys session_id) p q h =
    answer-view (destroys session_id) p.0 ∙ sym (answer-view (destroys session_id) q.0)
answer-SameEntries (clears now) p q h =
    answer-view (clears now) p.0 ∙ sym (answer-view (clears now) q.0)

abbrev pub step_pool : Call → Pool → Pool
step_pool c p = (step c p.0, step-IsValid c p.0 p.1)

pub step_pool-SameEntries :
    (c : Call) (p q : Pool) → SameEntries p q → SameEntries (step_pool c p) (step_pool c q)
step_pool-SameEntries c p q h j =
    step-lookup c p.0 j p.1 ∙ ap (effect c j) (h j) ∙ sym (step-lookup c q.0 j q.1)

-- A call on an unordered pool, and what it answers.
unfoldable pub step_unordered : Call → Unordered → Unordered
step_unordered c =
    Quot.lift Quot-set (λ p. Quot.mk (step_pool c p))
      (λ p q h. Quot.sound (step_pool-SameEntries c p q h))

unfoldable pub answer_unordered : Call → Unordered → List Bool
answer_unordered c = Quot.lift Answers-set (λ p. answer c p.0) (answer-SameEntries c)

unfoldable pub run_unordered : List Call → Unordered → Unordered × List Bool
run_unordered [] u = (u, [])
run_unordered (c ∷ cs) u =
    let rest = run_unordered cs (step_unordered c u) in (rest.0, answer_unordered c u ++ rest.1)

unfoldable pub run_view : List Call → View → View × List Bool
run_view [] w = (w, [])
run_view (c ∷ cs) w = let rest = run_view cs (view_step c w) in (rest.0, view_answer c w ++ rest.1)

view-step_unordered : (c : Call) (u : Unordered) → view (step_unordered c u) ≡ view_step c (view u)
unfolding view step_unordered
view-step_unordered c u = fun_ext (λ later. fun_ext (λ j.
    Quot.ind {β = λ z. view (step_unordered c z) later j ≡ view_step c (view z) later j}
      (λ z. Option-Text-set _ _) (λ p. step-user_at c p.0 later j p.1) u))

answer_unordered-view : (c : Call) (u : Unordered) → answer_unordered c u ≡ view_answer c (view u)
unfolding view answer_unordered
answer_unordered-view c u =
    Quot.ind {β = λ z. answer_unordered c z ≡ view_answer c (view z)} (λ z. Answers-set _ _)
      (λ p. answer-view c p.0) u

-- Over any calls of the members, with any clock values, a pool as an unordered table (two pools
-- that find the same entries are equal) acts as its view, which tells for each time and id the
-- user that the id stands for: a login makes its id stand for the user up to its end and no
-- longer, a logout for nobody, a check (of its id) and a clearing (of every id) take away what
-- stands for nobody at their time and leave the rest; and the checks answer, in order, whether
-- their id stands for a user at their time.
pub run_unordered-view :
    (cs : List Call) (u : Unordered)
    → (view (run_unordered cs u).0 ≡ (run_view cs (view u)).0)
      × ((run_unordered cs u).1 ≡ (run_view cs (view u)).1)
unfolding run_unordered run_view
run_unordered-view [] u = (refl, refl)
run_unordered-view (c ∷ cs) u =
    let (after, answers) = run_unordered-view cs (step_unordered c u) in
    let here = view-step_unordered c u in
    (
      after ∙ ap (λ w. (run_view cs w).0) here,
      ap (λ bs. bs ++ (run_unordered cs (step_unordered c u)).1) (answer_unordered-view c u)
          ∙ ap (λ bs. view_answer c (view u) ++ bs) (answers ∙ ap (λ w. (run_view cs w).1) here),
    )
