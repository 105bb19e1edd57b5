-- ===== src/Http/Session/Refine.antt =====
-- http-server-cpp/src/SessionManager.cpp: histories of calls, and a table of sessions as the contract.
use study_code.Prelude.{ℕ, ◌≡◌, ◌∙◌, Option, none, some, List, [], ◌∷◌, arith, if◌then◌else◌}
use study_code.Prelude.Int.{ℤ, ◌+ℤ◌, ◌≤ℤ◌}
use study_code.Text.{Text, text_eq}
use study_code.Http.Session.{
  SessionData, SessionManager, generate_session_id, create_session, is_session_valid,
  destroy_session, clear_expired_session,
}
use study_code.Http.Session.Laws.{
  live, user_at, IsValid, create_session-user_at, is_session_valid_keeps, destroy_session-user_at,
  clear_expired_session_keeps, create_session-IsValid, is_session_valid-IsValid,
  destroy_session-IsValid, clear_expired_session-IsValid,
}

pub data Call : Type 0 where
  creates : (username : Text) (timeout id_time now : ℤ) (draw : ℕ → ℕ) → Call
  checks : (session_id : Text) (now : ℤ) → Call
  destroys : (session_id : Text) → Call
  clears : (now : ℤ) → Call

unfoldable pub step : Call → SessionManager → SessionManager
step (creates username timeout id_time now draw) mgr =
    (create_session username timeout id_time draw now mgr).1
step (checks session_id now) mgr = (is_session_valid session_id now mgr).1
step (destroys session_id) mgr = destroy_session session_id mgr
step (clears now) mgr = clear_expired_session now mgr

unfoldable pub run : List Call → SessionManager → SessionManager
run [] mgr = mgr
run (c ∷ cs) mgr = run cs (step c mgr)

abbrev pub Table : Type 0
Table = Text → Option SessionData

abbrev pub spec_step : Call → Table → Table
spec_step (creates username timeout id_time now draw) table j =
    if text_eq (generate_session_id id_time draw) j
    then some (record { username = username; expire_time = now +ℤ timeout })
    else table j
spec_step (checks session_id now) table j = table j
spec_step (destroys session_id) table j = if text_eq session_id j then none else table j
spec_step (clears now) table j = table j

abbrev pub spec_run : List Call → Table → Table
spec_run [] table = table
spec_run (c ∷ cs) table = spec_run cs (spec_step c table)

-- No check and no clearing was made after `later`.
abbrev pub Before : ℤ → List Call → Type 0
Before later [] = Unit
Before later (checks session_id now ∷ cs) = (now ≤ℤ later) × Before later cs
Before later (clears now ∷ cs) = (now ≤ℤ later) × Before later cs
Before later (creates _ _ _ _ _ ∷ cs) = Before later cs
Before later (destroys _ ∷ cs) = Before later cs

pub step-IsValid : (c : Call) (mgr : SessionManager) → IsValid mgr → IsValid (step c mgr)
unfolding step
step-IsValid (creates username timeout id_time now draw) mgr v =
    create_session-IsValid mgr username timeout id_time now draw v
step-IsValid (checks session_id now) mgr v = is_session_valid-IsValid mgr session_id now v
step-IsValid (destroys session_id) mgr v = destroy_session-IsValid mgr session_id v
step-IsValid (clears now) mgr v = clear_expired_session-IsValid mgr now v

-- The ids in the pool stay distinct whatever is called.
pub run-IsValid : (cs : List Call) (mgr : SessionManager) → IsValid mgr → IsValid (run cs mgr)
unfolding run
run-IsValid [] mgr v = v
run-IsValid (c ∷ cs) mgr v = run-IsValid cs (step c mgr) (step-IsValid c mgr v)

-- The pool and the table give every id the same user at `later`.
abbrev pub Agree : ℤ → SessionManager → Table → Type 0
Agree later mgr table = (j : Text) → user_at mgr later j ≡ live later (table j)

step-Agree :
    (c : Call) (mgr : SessionManager) (table : Table) (later : ℤ)
    → IsValid mgr
    → Before later (c ∷ [])
    → Agree later mgr table
    → Agree later (step c mgr) (spec_step c table)
unfolding step
step-Agree (creates username timeout id_time now draw) mgr table later v b h j =
    ground (arith, create_session-user_at mgr username timeout id_time now later draw j, h j)
step-Agree (checks session_id now) mgr table later v b h j =
    is_session_valid_keeps mgr session_id j now later b.0 ∙ h j
step-Agree (destroys session_id) mgr table later v b h j =
    ground (arith, destroy_session-user_at mgr session_id j later, h j)
step-Agree (clears now) mgr table later v b h j =
    clear_expired_session_keeps mgr j now later v b.0 ∙ h j

Before-head :
    (later : ℤ) (c : Call) (cs : List Call) → Before later (c ∷ cs) → Before later (c ∷ [])
Before-head later (creates _ _ _ _ _) cs b = tt
Before-head later (checks _ _) cs b = (b.0, tt)
Before-head later (destroys _) cs b = tt
Before-head later (clears _) cs b = (b.0, tt)

Before-tail : (later : ℤ) (c : Call) (cs : List Call) → Before later (c ∷ cs) → Before later cs
Before-tail later (creates _ _ _ _ _) cs b = b
Before-tail later (checks _ _) cs b = b.1
Before-tail later (destroys _) cs b = b
Before-tail later (clears _) cs b = b.1

-- If the pool has distinct ids and gives every id the user that a table of sessions gives it at
-- `later`, the same holds after any history of calls whose checks and clearings were made no later
-- than `later`; in the table only logins and logouts write, so the erasing of expired sessions, at
-- a check or by a clearing, is invisible.
pub run-Agree :
    (cs : List Call) (mgr : SessionManager) (table : Table) (later : ℤ)
    → IsValid mgr
    → Before later cs
    → Agree later mgr table
    → Agree later (run cs mgr) (spec_run cs table)
unfolding run
run-Agree [] mgr table later v b h = h
run-Agree (c ∷ cs) mgr table later v b h =
    run-Agree cs (step c mgr) (spec_step c table) later (step-IsValid c mgr v)
      (Before-tail later c cs b) (step-Agree c mgr table later v (Before-head later c cs b) h)
