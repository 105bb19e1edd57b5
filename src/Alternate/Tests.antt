-- ===== src/Alternate/Tests.antt =====
-- The two threads under concrete schedules.
use study_code.Prelude.{◌+◌, ◌≤◌, ◌≡◌, refl, true, some, none, List, [], ◌∷◌}
use study_code.Alternate.{
  total_rounds, ready, ended, Printers, begin, i_am_a, i_am_b, Act, a_locks, b_locks, a_wakes, act,
  run,
}
use study_code.Alternate.Turns.{by_turns, run-by_turns}
use study_code.Alternate.Ending.{locked, woken, locked_bound, run_stuck}

abbrev started : List Act
started = b_locks ∷ a_locks ∷ a_locks ∷ a_wakes ∷ b_locks ∷ []

abbrev after_two : Printers
after_two = record { is_a_turn = true; print_round = 2; place_a = ready; place_b = ready }

run-started : run started begin ≡ some (after_two, i_am_a ∷ i_am_b ∷ [])
unfolding run begin act
run-started = refl

run-by_turns_example : (i_am_a ∷ i_am_b ∷ [] ≡ by_turns true 2) × (2 ≤ total_rounds)
run-by_turns_example = run-by_turns started after_two (i_am_a ∷ i_am_b ∷ []) run-started

locked_bound_example : locked started ≤ 44 + woken started
locked_bound_example = locked_bound started after_two (i_am_a ∷ i_am_b ∷ []) run-started

abbrev whole : List Act
whole =
    a_locks ∷ b_locks ∷ a_locks ∷ b_locks ∷ a_locks ∷ b_locks ∷ a_locks ∷ b_locks ∷ a_locks
    ∷ b_locks ∷ a_locks ∷ b_locks ∷ []

abbrev finished : Printers
finished = record { is_a_turn = true; print_round = 10; place_a = ended; place_b = ended }

run-whole : run whole begin ≡ some (finished, by_turns true 10)
unfolding run begin act
run-whole = refl

a_stuck : act a_locks finished ≡ none
unfolding act
a_stuck = refl

b_stuck : act b_locks finished ≡ none
unfolding act
b_stuck = refl

run_stuck_example : (ended ≡ ended) × (ended ≡ ended) × (by_turns true 10 ≡ by_turns true 10)
run_stuck_example = run_stuck whole finished (by_turns true 10) run-whole a_stuck b_stuck
