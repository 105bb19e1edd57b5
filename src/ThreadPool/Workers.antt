-- ===== src/ThreadPool/Workers.antt =====
-- thread5/ThreadPool.hpp with its workers: where each stands, and which of them a signal wakes. A
-- worker's step is what it does from taking the mutex to giving it up, by waiting too.
pub mod Counts
pub mod Moves
pub mod Calls
pub mod Keeps
pub mod Taken
pub mod Drain
pub mod Ends
pub mod Rest
use study_code.Prelude.{
  ℕ, zero, suc, ◌+◌, Bool, true, false, Option, none, some, List, [], ◌∷◌, ◌++◌, map, get_elem?,
  set, replicate, ◌>>=◌,
}
use study_code.ThreadPool.{
  ThreadPool, Effect, waits, leaves, takes, starts, signals, broadcasts, new_pool, handler_task,
  handler_wakes, start, stop, enqueue,
}

-- A worker before it takes the mutex, in `Wait`, woken in it, and behind its loop.
pub data Place : Type 0 where
  ready waiting woken left : Place

abbrev pub wake : Place → Place
wake ready = ready
wake waiting = woken
wake woken = woken
wake left = left

abbrev pub wake_first : List Place → List Place
wake_first [] = []
wake_first (waiting ∷ ps) = woken ∷ ps
wake_first (ready ∷ ps) = ready ∷ wake_first ps
wake_first (woken ∷ ps) = woken ∷ wake_first ps
wake_first (left ∷ ps) = left ∷ wake_first ps

abbrev pub wake_chosen : Option Place → ℕ → List Place → List Place
wake_chosen (some waiting) who ps = set ps who woken
wake_chosen (some ready) who ps = wake_first ps
wake_chosen (some woken) who ps = wake_first ps
wake_chosen (some left) who ps = wake_first ps
wake_chosen none who ps = wake_first ps

-- What a call does to the waiting workers: a signal wakes one of them, if there is one, which the
-- system chooses; a broadcast wakes all.
abbrev pub awaken {ℓ} : {T : Type ℓ} → ℕ → List (Effect T) → List Place → List Place
awaken who [] ps = ps
awaken who (signals ∷ es) ps = wake_chosen (get_elem? ps who) who ps
awaken who (broadcasts ∷ es) ps = map wake ps
awaken who (waits ∷ es) ps = ps
awaken who (leaves ∷ es) ps = ps
awaken who (takes task ∷ es) ps = ps
awaken who (starts n ∷ es) ps = ps

-- Where a worker stands behind its step.
abbrev pub place_after {ℓ} : {T : Type ℓ} → List (Effect T) → Place
place_after (waits ∷ es) = waiting
place_after (leaves ∷ es) = left
place_after (takes task ∷ es) = ready
place_after (starts n ∷ es) = ready
place_after (signals ∷ es) = ready
place_after (broadcasts ∷ es) = ready
place_after [] = ready

pub record Workers {ℓ} (T : Type ℓ) : Type ℓ where
  pub pool : ThreadPool T
  pub places : List Place

-- A worker's step; a waking for no reason; the calls of the thread that owns the pool, of which a signal
-- wakes `who` if that one waits.
pub data Act {ℓ} (T : Type ℓ) : Type ℓ where
  goes : (i : ℕ) → Act T
  wakes : (i : ℕ) → Act T
  enqueues : (task : T) (who : ℕ) → Act T
  stops : Act T

module _ {ℓ} {T : Type ℓ} where
  pub go_at : Option Place → ℕ → Workers T → Option (Workers T × List (Effect T))
  go_at (some ready) i w =
      let r = handler_task w.pool in
      some (record { pool = r.0; places = set w.places i (place_after r.1) }, r.1)
  go_at (some woken) i w =
      let r = handler_wakes w.pool in
      some (record { pool = r.0; places = set w.places i (place_after r.1) }, r.1)
  go_at (some waiting) i w = none
  go_at (some left) i w = none
  go_at none i w = none

  pub wake_at : Option Place → ℕ → Workers T → Option (Workers T × List (Effect T))
  wake_at (some waiting) i w = some (record w { places = set w.places i woken }, [])
  wake_at (some ready) i w = none
  wake_at (some woken) i w = none
  wake_at (some left) i w = none
  wake_at none i w = none

  -- `none`: the worker cannot do this now.
  unfoldable pub act : Act T → Workers T → Option (Workers T × List (Effect T))
  unfolding go_at wake_at
  act (goes i) w = go_at (get_elem? w.places i) i w
  act (wakes i) w = wake_at (get_elem? w.places i) i w
  act (enqueues task who) w =
      let r = enqueue task w.pool in
      some (record { pool = r.0; places = awaken who r.1 w.places }, r.1)
  act stops w =
      let r = stop w.pool in some (record { pool = r.0; places = awaken 0 r.1 w.places }, r.1)

  -- The pool behind the constructor and `Start`.
  unfoldable pub started : ℕ → Workers T
  started n = record { pool = (start (new_pool n)).0; places = replicate n ready }

  unfoldable pub run : List (Act T) → Workers T → Option (Workers T × List (Effect T))
  unfolding act
  run [] w = some (w, [])
  run (a ∷ as') w = do next ← act a w; rest ← run as' next.0; some (rest.0, next.1 ++ rest.1)
