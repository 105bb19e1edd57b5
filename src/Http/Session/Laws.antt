-- ===== src/Http/Session/Laws.antt =====
-- The session pool against its contract: a map from ids to users with an end.
use study_code.Prelude.{ℕ, ◌≡◌, Bool, true, false, not, Option, none, some, arith, if◌then◌else◌}
use study_code.Prelude.Int.{ℤ, ◌+ℤ◌, ◌≤ℤ◌, ltb_ℤ}
use study_code.Text.{Text, text_eq}
use study_code.Text.Search.{text_eq_iff}
use study_code.StringMap.{
  lookup, HasUniqueKeys, lookup-insert, lookup-erase, lookup-retain, insert-HasUniqueKeys,
  erase-HasUniqueKeys, retain-HasUniqueKeys,
}
use study_code.Http.Session.{
  SessionData, SessionManager, generate_session_id, create_session, is_session_valid, get_username,
  destroy_session, clear_expired_session,
}

-- The user that a session id stands for at a time, if any.
abbrev pub live : ℤ → Option SessionData → Option Text
live now none = none
live now (some entry) = if ltb_ℤ entry.expire_time now then none else some entry.username

unfoldable pub user_at : SessionManager → ℤ → Text → Option Text
user_at mgr now session_id = live now (lookup session_id mgr.sessions)

abbrev pub IsValid : SessionManager → Type 0
IsValid mgr = HasUniqueKeys mgr.sessions

abbrev pub is_some : Option Text → Bool
is_some none = false
is_some (some u) = true

-- A new session stands for its user up to `timeout` seconds later and no longer; every other id
-- stands for what it stood for.
pub create_session-user_at :
    (mgr : SessionManager) (username : Text) (timeout id_time now later : ℤ) (draw : ℕ → ℕ)
    (j : Text)
    → user_at (create_session username timeout id_time draw now mgr).1 later j ≡ (
        if text_eq (generate_session_id id_time draw) j
        then (if ltb_ℤ (now +ℤ timeout) later then none else some username)
        else user_at mgr later j)
unfolding create_session user_at
create_session-user_at mgr username timeout id_time now later draw j =
    rw (lookup-insert (generate_session_id id_time draw) j) (ground arith)

-- A check returns whether the id stands for a user now.
pub is_session_valid-user_at :
    (mgr : SessionManager) (session_id : Text) (now : ℤ)
    → (is_session_valid session_id now mgr).0 ≡ is_some (user_at mgr now session_id)
unfolding is_session_valid user_at
is_session_valid-user_at mgr session_id now = ground arith

-- A check changes what no id stands for, at the time of the check or later.
pub is_session_valid_keeps :
    (mgr : SessionManager) (session_id j : Text) (now later : ℤ)
    → now ≤ℤ later
    → user_at (is_session_valid session_id now mgr).1 later j ≡ user_at mgr later j
unfolding is_session_valid user_at
is_session_valid_keeps mgr session_id j now later h =
    ground (arith, lookup-erase session_id j mgr.sessions, text_eq_iff session_id j)

pub get_username-user_at :
    (mgr : SessionManager) (session_id user : Text) (now : ℤ)
    → user_at mgr now session_id ≡ some user
    → get_username session_id mgr ≡ user
unfolding get_username user_at
get_username-user_at mgr session_id user now h = ground arith

-- A destroyed session stands for nobody at any time, and no other id is touched.
pub destroy_session-user_at :
    (mgr : SessionManager) (session_id j : Text) (now : ℤ)
    → user_at (destroy_session session_id mgr) now j
      ≡ (if text_eq session_id j then none else user_at mgr now j)
unfolding destroy_session user_at
destroy_session-user_at mgr session_id j now = rw (lookup-erase session_id j) (ground arith)

-- In a pool of distinct ids, clearing expired sessions changes what no id stands for, at the time
-- of the clearing or later.
pub clear_expired_session_keeps :
    (mgr : SessionManager) (j : Text) (now later : ℤ)
    → IsValid mgr
    → now ≤ℤ later
    → user_at (clear_expired_session now mgr) later j ≡ user_at mgr later j
unfolding clear_expired_session user_at
clear_expired_session_keeps mgr j now later v h =
    rw (lookup-retain (λ entry. not (ltb_ℤ entry.expire_time now)) j mgr.sessions v) (ground arith)

-- Every session left in a pool of distinct ids after a clearing is unexpired.
pub clear_expired_session-unexpired :
    (mgr : SessionManager) (j : Text) (now : ℤ) (entry : SessionData)
    → IsValid mgr
    → lookup j (clear_expired_session now mgr).sessions ≡ some entry
    → now ≤ℤ entry.expire_time
unfolding clear_expired_session
clear_expired_session-unexpired mgr j now entry v h =
    ground (arith, lookup-retain (λ e. not (ltb_ℤ e.expire_time now)) j mgr.sessions v)

pub create_session-IsValid :
    (mgr : SessionManager) (username : Text) (timeout id_time now : ℤ) (draw : ℕ → ℕ)
    → IsValid mgr
    → IsValid (create_session username timeout id_time draw now mgr).1
unfolding create_session
create_session-IsValid mgr username timeout id_time now draw v =
    insert-HasUniqueKeys (generate_session_id id_time draw) _ mgr.sessions v

pub is_session_valid-IsValid :
    (mgr : SessionManager) (session_id : Text) (now : ℤ)
    → IsValid mgr
    → IsValid (is_session_valid session_id now mgr).1
unfolding is_session_valid
is_session_valid-IsValid mgr session_id now v =
    ground (arith, erase-HasUniqueKeys session_id mgr.sessions v)

pub destroy_session-IsValid :
    (mgr : SessionManager) (session_id : Text)
    → IsValid mgr
    → IsValid (destroy_session session_id mgr)
unfolding destroy_session
destroy_session-IsValid mgr session_id v = erase-HasUniqueKeys session_id mgr.sessions v

pub clear_expired_session-IsValid :
    (mgr : SessionManager) (now : ℤ) → IsValid mgr → IsValid (clear_expired_session now mgr)
unfolding clear_expired_session
clear_expired_session-IsValid mgr now v =
    retain-HasUniqueKeys (λ entry. not (ltb_ℤ entry.expire_time now)) mgr.sessions v
