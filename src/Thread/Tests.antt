-- ===== src/Thread/Tests.antt =====
-- The wrapper under concrete members.
use study_code.Prelude.{◌≡◌, refl, List, [], ◌∷◌}
use study_code.Prelude.Int.{pos}
use study_code.Thread.{Thread, new_thread, Act, starts, begins, joins, stops, run}
use study_code.Thread.Calls.{joins_in, run_joinable}

abbrev fresh : Thread
unfolding new_thread
fresh = (new_thread 1).0

abbrev joined : List Act
joined = starts (pos 0) 7 ∷ joins ∷ begins ∷ stops ∷ joins ∷ []

run_joinable_example : joins_in (run joined fresh).1 ≡ 2
unfolding fresh
run_joinable_example = run_joinable joined fresh refl refl
