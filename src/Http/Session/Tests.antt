-- ===== src/Http/Session/Tests.antt =====
-- The session pool at concrete histories.
use mathlib.Core.Quot
use study_code.Http.Session.Unordered.{Unordered, view, run_unordered, run_view, run_unordered-view}
use study_code.Prelude.{ℕ, ◌<◌, ◌≡◌, refl, none, List, [], ◌∷◌, arith}
use study_code.Prelude.Int.{pos}
use study_code.StringMap.{lookup}
use study_code.Http.Session.{SessionData, SessionManager, get_instance}
use study_code.Http.Session.Laws.{user_at}
use study_code.Http.Session.Refine.{
  Call, creates, checks, destroys, clears, run, Table, spec_run, Agree, run-Agree,
}
use study_code.Http.Session.Id.{generate_session_id-injective}

abbrev threes : ℕ → ℕ
threes k = 3

abbrev calls : List Call
calls =
    creates (b'a' ∷ []) (pos 60) (pos 5) (pos 6) threes
    ∷ checks (b'x' ∷ []) (pos 30)
    ∷ clears (pos 40)
    ∷ destroys (b'y' ∷ [])
    ∷ []

abbrev empty : Table
empty j = none

run-Agree_example : Agree (pos 50) (run calls get_instance) (spec_run calls empty)
unfolding user_at lookup
run-Agree_example =
    run-Agree calls get_instance empty (pos 50) tt (omega arith, (omega arith, tt)) (λ j. refl)

abbrev entry : SessionData
entry = record { username = b'a' ∷ []; expire_time = pos 10 }

abbrev pool : SessionManager
pool = record { sessions = (b'x' ∷ [], entry) ∷ [] }

abbrev five : ℕ
five = 5

generate_session_id-injective_example : (five ≡ five) × ((k : ℕ) → k < 16 → threes k ≡ threes k)
generate_session_id-injective_example =
    generate_session_id-injective five five threes threes (λ i. omega arith) (λ i. omega arith) refl

abbrev one_session : Unordered
unfolding lookup
one_session = Quot.mk (pool, (refl, tt))

run_unordered-view_example :
    (view (run_unordered calls one_session).0 ≡ (run_view calls (view one_session)).0)
    × ((run_unordered calls one_session).1 ≡ (run_view calls (view one_session)).1)
unfolding lookup
run_unordered-view_example = run_unordered-view calls one_session
