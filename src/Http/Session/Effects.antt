-- ===== src/Http/Session/Effects.antt =====
-- http-server-cpp/src/SessionManager.cpp: what a call makes of the entry of each id.
use study_code.Prelude.{
  ◌≡◌, refl, ◌∙◌, Bool, not, Option, none, some, arith, if◌then◌else◌, Bool-cases, inl, inr,
}
use study_code.Prelude.Int.{ℤ, ltb_ℤ, ◌+ℤ◌}
use study_code.Text.{Text, text_eq}
use study_code.Text.Search.{text_eq_iff}
use study_code.StringMap.{lookup, lookup-insert, lookup-erase, lookup-retain, kept}
use study_code.Http.Session.{
  SessionData, SessionManager, generate_session_id, create_session, is_session_valid, check_entry,
  destroy_session, clear_expired_session,
}
use study_code.Http.Session.Laws.{IsValid}
use study_code.Http.Session.Refine.{Call, creates, checks, destroys, clears, step}

abbrev pub unexpired : ℤ → SessionData → Bool
unexpired now entry = not (ltb_ℤ entry.expire_time now)

-- What a call makes of the entry of an id.
abbrev pub effect : Call → Text → Option SessionData → Option SessionData
effect (creates username timeout id_time now draw) j o =
    if text_eq (generate_session_id id_time draw) j
    then some (record { username = username; expire_time = now +ℤ timeout })
    else o
effect (checks session_id now) j o = if text_eq session_id j then kept (unexpired now) o else o
effect (destroys session_id) j o = if text_eq session_id j then none else o
effect (clears now) j o = kept (unexpired now) o

checked-lookup :
    (session_id : Text) (now : ℤ) (j : Text) (o : Option SessionData) (mgr : SessionManager)
    → lookup session_id mgr.sessions ≡ o
    → lookup j (check_entry session_id now o mgr).1.sessions
      ≡ effect (checks session_id now) j (lookup j mgr.sessions)
unfolding check_entry
checked-lookup session_id now j none mgr e = ground (arith, e, text_eq_iff session_id j)
checked-lookup session_id now j (some entry) mgr e =
    elim (Bool-cases (ltb_ℤ entry.expire_time now)) [
      | inl over ↦ rw over (
          lookup-erase session_id j mgr.sessions
          ∙ ground (arith, over, e, text_eq_iff session_id j))
      | inr live ↦ rw live ground (arith, live, e, text_eq_iff session_id j)
    ]

pub step-lookup :
    (c : Call) (mgr : SessionManager) (j : Text)
    → IsValid mgr
    → lookup j (step c mgr).sessions ≡ effect c j (lookup j mgr.sessions)
unfolding step create_session is_session_valid destroy_session clear_expired_session
step-lookup (creates username timeout id_time now draw) mgr j v =
    lookup-insert (generate_session_id id_time draw) j _ mgr.sessions
step-lookup (checks session_id now) mgr j v =
    checked-lookup session_id now j (lookup session_id mgr.sessions) mgr refl
step-lookup (destroys session_id) mgr j v = lookup-erase session_id j mgr.sessions
step-lookup (clears now) mgr j v = lookup-retain (unexpired now) j mgr.sessions v
