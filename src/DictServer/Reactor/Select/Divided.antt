-- ===== src/DictServer/Reactor/Select/Divided.antt =====
-- SelectLoop.cpp, a round of `run` connection by connection: behind `select` the loop goes over
-- `m_connections` itself, without the mutex, while the main thread adds connections.
use study_code.Prelude.{
  ◌>>=◌, ℕ, Bool, false, not, ◌||◌, Option, some, List, [], length, if◌then◌else◌, ltb,
}
use study_code.Prelude.Int.{ℤ, is_positive}
use study_code.Sys.{Trace}
use study_code.DictServer.Reactor.{Heap, World}
use study_code.DictServer.Reactor.Select.{SelectLoop, add_connection, visit_one}
use study_code.DictServer.Reactor.Steps
use study_code.DictServer.Reactor.Steps.{Act, visits, adds, visits_in, visit_all, add_all}

-- The loop and the room of the array behind `m_connections`. If `push_back` needs more, the elements
-- move, and the iterators of a round under way dangle.
pub record Roomy : Type 0 where
  pub loop : SelectLoop
  pub capacity : ℕ
  pub moved : Bool

-- `grow` is the room that the library takes when `capacity` is full.
module _ (grow : ℕ → ℕ) where
  abbrev pub push_back : SelectLoop → Roomy → Roomy
  push_back loop g =
      let full = not (ltb (length g.loop.connections) g.capacity) in
      record {
        loop = loop;
        capacity = if full then grow g.capacity else g.capacity;
        moved = full || g.moved;
      }

  unfoldable pub take : ℕ → Heap → Roomy → Option Roomy
  unfolding add_connection
  take p heap g = do taken ← add_connection (some p) heap g.loop; some (push_back taken.1 g)

  module _ (world : World) (ready : ℤ → Bool) where
    -- A round from `select`'s return on. The loop takes the end of the list when it begins.
    unfoldable pub split_round : ℤ → List Act → Roomy → Heap → Option (Roomy × Heap × Trace)
    unfolding visit_one take Steps.run
    split_round eventnum as' g heap =
        Steps.run (visit_one world ready) take (λ r. r.moved) as' g.loop.read_fds
          (if is_positive eventnum then g.loop.connections else []) (record g { moved = false })
          heap
