-- ===== src/ThreadPool/Workers/Counts.antt =====
-- How many workers stand at which places.
use study_code.Prelude.{
  ℕ, zero, suc, ◌+◌, ◌-◌, ◌≡◌, refl, Option, none, some, List, [], ◌∷◌, map, get_elem?, set,
  replicate, length, arith, some-eq_some,
}
use study_code.ThreadPool.Workers.{
  Place, ready, waiting, woken, left, wake, wake_first, wake_chosen,
}

abbrev pub tally : (Place → ℕ) → List Place → ℕ
tally f [] = 0
tally f (p ∷ ps) = f p + tally f ps

-- The workers in `Wait`, those of them that nobody woke, those that have a step to take, and those behind
-- their loop.
abbrev pub sleeps : Place → ℕ
sleeps ready = 0
sleeps waiting = 1
sleeps woken = 1
sleeps left = 0

abbrev pub waits_there : Place → ℕ
waits_there ready = 0
waits_there waiting = 1
waits_there woken = 0
waits_there left = 0

abbrev pub awake : Place → ℕ
awake ready = 1
awake waiting = 0
awake woken = 1
awake left = 0

abbrev pub is_left : Place → ℕ
is_left ready = 0
is_left waiting = 0
is_left woken = 0
is_left left = 1

pub tally-set :
    (f : Place → ℕ) (ps : List Place) (i : ℕ) (p q : Place)
    → get_elem? ps i ≡ some p
    → tally f (set ps i q) + f p ≡ tally f ps + f q
tally-set f [] i p q e = cc
tally-set f (r ∷ ps) zero p q e = let same : r ≡ p = some-eq_some e in rw same (omega arith)
tally-set f (r ∷ ps) (suc i) p q e = omega (arith, tally-set f ps i p q e)

-- Waking every waiting worker.
pub tally-wake_all :
    (ps : List Place)
    → (tally sleeps (map wake ps) ≡ tally sleeps ps)
      × (tally waits_there (map wake ps) ≡ 0)
      × (tally awake (map wake ps) ≡ tally awake ps + tally waits_there ps)
      × (tally is_left (map wake ps) ≡ tally is_left ps)
tally-wake_all [] = omega arith
tally-wake_all (ready ∷ ps) = omega (arith, tally-wake_all ps)
tally-wake_all (waiting ∷ ps) = omega (arith, tally-wake_all ps)
tally-wake_all (woken ∷ ps) = omega (arith, tally-wake_all ps)
tally-wake_all (left ∷ ps) = omega (arith, tally-wake_all ps)

-- What a signal leaves: one waiting worker less, unless there was none.
abbrev pub OneWoken : List Place → List Place → Type 0
OneWoken ps qs =
    (tally sleeps qs ≡ tally sleeps ps)
    × (tally waits_there qs ≡ tally waits_there ps - 1)
    × (tally awake qs + tally waits_there qs ≡ tally awake ps + tally waits_there ps)
    × (tally is_left qs ≡ tally is_left ps)

wake_first-OneWoken : (ps : List Place) → OneWoken ps (wake_first ps)
wake_first-OneWoken [] = omega arith
wake_first-OneWoken (ready ∷ ps) = omega (arith, wake_first-OneWoken ps)
wake_first-OneWoken (waiting ∷ ps) = omega arith
wake_first-OneWoken (woken ∷ ps) = omega (arith, wake_first-OneWoken ps)
wake_first-OneWoken (left ∷ ps) = omega (arith, wake_first-OneWoken ps)

pub wake_chosen-OneWoken :
    (who : ℕ) (p : Option Place) (ps : List Place)
    → get_elem? ps who ≡ p
    → OneWoken ps (wake_chosen p who ps)
wake_chosen-OneWoken who (some waiting) ps e = omega (
  arith,
  tally-set sleeps ps who waiting woken e,
  tally-set waits_there ps who waiting woken e,
  tally-set awake ps who waiting woken e,
  tally-set is_left ps who waiting woken e,
)
wake_chosen-OneWoken who (some ready) ps e = wake_first-OneWoken ps
wake_chosen-OneWoken who (some woken) ps e = wake_first-OneWoken ps
wake_chosen-OneWoken who (some left) ps e = wake_first-OneWoken ps
wake_chosen-OneWoken who none ps e = wake_first-OneWoken ps

-- Nobody is anywhere else.
pub tally-length :
    (ps : List Place) → tally awake ps + tally waits_there ps + tally is_left ps ≡ length ps
tally-length [] = omega arith
tally-length (ready ∷ ps) = omega (arith, tally-length ps)
tally-length (waiting ∷ ps) = omega (arith, tally-length ps)
tally-length (woken ∷ ps) = omega (arith, tally-length ps)
tally-length (left ∷ ps) = omega (arith, tally-length ps)

pub tally-replicate : (f : Place → ℕ) (n : ℕ) → f ready ≡ 0 → tally f (replicate n ready) ≡ 0
tally-replicate f zero h = refl
tally-replicate f (suc n) h = omega (arith, h, tally-replicate f n h)
