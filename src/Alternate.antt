-- ===== src/Alternate.antt =====
-- thread1/Main.cc: two threads that print in turn under one mutex and one condition variable. What a
-- thread does between taking the mutex and giving it up, by `pthread_cond_wait` or by unlocking, is one
-- step; a waiting thread may also wake for no reason.
pub mod Turns
pub mod Ending
mod Tests
use study_code.Prelude.{
  ℕ, zero, suc, ◌+◌, Bool, true, false, not, ◌&&◌, Option, none, some, List, [], ◌∷◌, ◌++◌, ltb,
  if◌then◌else◌, ◌>>=◌,
}

-- TOTAL_ROUNDS
abbrev pub total_rounds : ℕ
total_rounds = 10

-- A thread before it takes the mutex, in `pthread_cond_wait`, and behind its loop.
pub data Place : Type 0 where
  ready waiting ended : Place

pub record Printers : Type 0 where
  pub is_a_turn : Bool
  pub print_round : ℕ
  pub place_a : Place
  pub place_b : Place

unfoldable pub begin : Printers
begin = record { is_a_turn = true; print_round = 0; place_a = ready; place_b = ready }

pub data Line : Type 0 where
  i_am_a i_am_b : Line

-- `pthread_cond_signal` and the one thread that may be waiting.
abbrev pub signalled : Place → Place
signalled ready = ready
signalled waiting = ready
signalled ended = ended

pub data Act : Type 0 where
  a_locks b_locks a_wakes b_wakes : Act

locks_a : Place → Printers → Option (Printers × List Line)
locks_a ready s =
    if not s.is_a_turn && ltb s.print_round total_rounds
    then some (record s { place_a = waiting }, [])
    else if ltb s.print_round total_rounds
    then some (
      record s {
        print_round = s.print_round + 1;
        is_a_turn = false;
        place_b = signalled s.place_b;
      },
      i_am_a ∷ [],
    )
    else some (record s { place_a = ended; place_b = signalled s.place_b }, [])
locks_a waiting s = none
locks_a ended s = none

locks_b : Place → Printers → Option (Printers × List Line)
locks_b ready s =
    if s.is_a_turn && ltb s.print_round total_rounds
    then some (record s { place_b = waiting }, [])
    else if ltb s.print_round total_rounds
    then some (
      record s { print_round = s.print_round + 1; is_a_turn = true; place_a = signalled s.place_a },
      i_am_b ∷ [],
    )
    else some (record s { place_b = ended; place_a = signalled s.place_a }, [])
locks_b waiting s = none
locks_b ended s = none

-- `none`: the thread cannot do this now.
unfoldable pub act : Act → Printers → Option (Printers × List Line)
unfolding locks_a locks_b
act a_locks s = locks_a s.place_a s
act b_locks s = locks_b s.place_b s
act a_wakes s = some (record s { place_a = signalled s.place_a }, [])
act b_wakes s = some (record s { place_b = signalled s.place_b }, [])

unfoldable pub run : List Act → Printers → Option (Printers × List Line)
run [] s = some (s, [])
run (a ∷ as') s = do next ← act a s; rest ← run as' next.0; some (rest.0, next.1 ++ rest.1)
