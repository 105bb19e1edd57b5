-- ===== src/DictServer/Reactor/Poll/Divided.antt =====
-- PollLoop.cpp, a round of `run` entry by entry: the copies are made under the mutex, the rest goes on
-- while the main thread adds connections.
use study_code.Prelude.{◌>>=◌, ℕ, Bool, false, Option, some, List, [], if◌then◌else◌}
use study_code.Prelude.Int.{ℤ, is_positive}
use study_code.Sys.{Trace}
use study_code.DictServer.Reactor.{Heap, World}
use study_code.DictServer.Reactor.Poll.{PollLoop, add_connection, dispatch}
use study_code.DictServer.Reactor.Steps
use study_code.DictServer.Reactor.Steps.{Act, visits, adds, visits_in, visit_all, add_all}

-- Nothing of the round stands in the lists that grow.
abbrev pub never_moved : PollLoop → Bool
never_moved loop = false

unfoldable pub take : ℕ → Heap → PollLoop → Option PollLoop
unfolding add_connection
take p heap loop = do taken ← add_connection (some p) heap loop; some taken.1

module _ (world : World) (readable : ℤ → Bool) where
  -- The body of the loop over the copied entries.
  unfoldable pub handle_entry : List ℕ → ℤ → Heap → Option (Heap × Trace)
  unfolding dispatch
  handle_entry conns fd heap =
      if readable fd then dispatch world readable fd conns heap else some (heap, [])

  -- A round from the copies on.
  unfoldable pub divided_round : ℤ → List Act → PollLoop → Heap → Option (PollLoop × Heap × Trace)
  unfolding handle_entry take Steps.run
  divided_round eventnum as' loop heap =
      Steps.run handle_entry take never_moved as' loop.connections
        (if is_positive eventnum then loop.poll_fds else []) loop heap
