-- ===== src/Http/Session.antt =====
-- http-server-cpp/src/SessionManager.cpp: the login sessions. Each member runs under the mutex from
-- its first line to its last, so it is one step on the state; `time(nullptr)` and the draws of the
-- random generator are arguments. Times are whole seconds that do not wrap.
pub mod Laws
pub mod Refine
pub mod Effects
pub mod Unordered
pub mod Id
mod Tests
use study_code.Prelude.{
  ℕ, zero, suc, ◌+◌, ◌-◌, Bool, true, false, not, Option, none, some, List, [], ◌∷◌, ◌++◌, ltb,
  if◌then◌else◌,
}
use study_code.Prelude.Int.{ℤ, pos, ◌+ℤ◌, ltb_ℤ}
use study_code.Text.{Text}
use study_code.Text.Decimal.{to_string}
use study_code.StringMap.{StringMap, lookup, insert, erase, retain}

pub record SessionData : Type 0 where
  pub username : Text
  pub expire_time : ℤ

pub record SessionManager : Type 0 where
  pub sessions : StringMap SessionData

-- The instance that `getInstance` makes at its first call.
abbrev pub get_instance : SessionManager
get_instance = record { sessions = [] }

-- One digit under `std::hex`, of a draw from 0 to 15.
abbrev pub hex_digit : ℕ → ℕ
hex_digit v = if ltb v 10 then b'0' + v else b'a' + (v - 10)

-- `rounds` more draws, from the `i`-th on.
hex_digits : (ℕ → ℕ) → ℕ → ℕ → Text
hex_digits draw zero i = []
hex_digits draw (suc rounds) i = hex_digit (draw i) ∷ hex_digits draw rounds (i + 1)

unfoldable pub generate_session_id : ℤ → (ℕ → ℕ) → Text
unfolding hex_digits
generate_session_id now draw = to_string now ++ (b'_' ∷ hex_digits draw 16 0)

-- The default of `createSession`.
abbrev pub default_timeout : ℤ
default_timeout = pos 3600

-- `id_time` and `now` are the two readings of the clock.
unfoldable pub create_session : Text → ℤ → ℤ → (ℕ → ℕ) → ℤ → SessionManager → Text × SessionManager
create_session username timeout id_time draw now mgr =
    let session_id = generate_session_id id_time draw in
    let session : SessionData = record { username = username; expire_time = now +ℤ timeout } in
    (session_id, record { sessions = insert session_id session mgr.sessions })

check_entry : Text → ℤ → Option SessionData → SessionManager → Bool × SessionManager
check_entry session_id now none mgr = (false, mgr)
check_entry session_id now (some entry) mgr =
    if ltb_ℤ entry.expire_time now
    then (false, record { sessions = erase session_id mgr.sessions })
    else (true, mgr)

unfoldable pub is_session_valid : Text → ℤ → SessionManager → Bool × SessionManager
unfolding check_entry
is_session_valid session_id now mgr =
    check_entry session_id now (lookup session_id mgr.sessions) mgr

username_of : Option SessionData → Text
username_of none = []
username_of (some entry) = entry.username

unfoldable pub get_username : Text → SessionManager → Text
unfolding username_of
get_username session_id mgr = username_of (lookup session_id mgr.sessions)

unfoldable pub destroy_session : Text → SessionManager → SessionManager
destroy_session session_id mgr = record { sessions = erase session_id mgr.sessions }

unfoldable pub clear_expired_session : ℤ → SessionManager → SessionManager
clear_expired_session now mgr = record {
  sessions = retain (λ entry. not (ltb_ℤ entry.expire_time now)) mgr.sessions;
}
