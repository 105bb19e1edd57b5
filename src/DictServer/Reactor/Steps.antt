-- ===== src/DictServer/Reactor/Steps.antt =====
-- A loop's round entry by entry, while the main thread adds connections in between: what
-- SelectLoop.cpp and PollLoop.cpp have in common.
pub mod Serial
use study_code.Prelude.{
  ◌>>=◌, ℕ, zero, suc, Bool, true, false, Option, none, some, List, [], ◌∷◌, ◌++◌, if◌then◌else◌,
}
use study_code.Sys.{Trace}
use study_code.DictServer.Connection.{Connection}
use study_code.DictServer.Reactor.{Heap, update}

-- The loop's next entry, or the main thread's `new Connection` at a place and `addConnection`.
pub data Act : Type 0 where
  visits : Act
  adds : (p : ℕ) (conn : Connection) → Act

abbrev pub visits_in : List Act → ℕ
visits_in [] = 0
visits_in (visits ∷ as') = suc (visits_in as')
visits_in (adds p conn ∷ as') = visits_in as'

-- What a loop does with an entry of its set, how it takes a connection, and whether its iterators have
-- lost their array.
module _ {C E L : Type 0} (one : C → E → Heap → Option (Heap × Trace))
    (add : ℕ → Heap → L → Option L) (moved : L → Bool) where
  -- `c` is what the round copied, `es` the entries to go.
  unfoldable pub run : List Act → C → List E → L → Heap → Option (L × Heap × Trace)
  run [] c es loop heap = some (loop, heap, [])
  run (visits ∷ as') c [] loop heap = run as' c [] loop heap
  run (visits ∷ as') c (e ∷ es) loop heap = do
    seen ← (if moved loop then none else one c e heap)
    rest ← run as' c es loop seen.0
    some (rest.0, rest.1, seen.1 ++ rest.2)
  run (adds p conn ∷ as') c es loop heap = do
    grown ← add p (update heap p (some conn)) loop
    run as' c es grown (update heap p (some conn))

  -- The entries without a pause.
  unfoldable pub visit_all : C → List E → Heap → Option (Heap × Trace)
  visit_all c [] heap = some (heap, [])
  visit_all c (e ∷ es) heap = do
    seen ← one c e heap
    rest ← visit_all c es seen.0
    some (rest.0, seen.1 ++ rest.1)

  -- The main thread's additions without a pause.
  unfoldable pub add_all : List Act → L → Heap → Option (L × Heap)
  add_all [] loop heap = some (loop, heap)
  add_all (visits ∷ as') loop heap = add_all as' loop heap
  add_all (adds p conn ∷ as') loop heap = do
    grown ← add p (update heap p (some conn)) loop
    add_all as' grown (update heap p (some conn))
