-- ===== src/DictServer/Reactor/Poll.antt =====
-- PollLoop.cpp.
pub mod Divided
pub mod Serial
use study_code.Prelude.{
  ◌>>=◌, ℕ, Bool, true, false, Option, none, some, List, [], ◌∷◌, ◌++◌, if◌then◌else◌,
}
use study_code.Prelude.Int.{ℤ, is_positive}
use study_code.Sys.{Trace, same_fd}
use study_code.DictServer.Reactor.{Heap, World, read_at}

-- Each entry of `m_pollFds` waits for input, so it is its descriptor.
pub record PollLoop : Type 0 where
  pub poll_fds : List ℤ
  pub connections : List ℕ

unfoldable pub init : PollLoop → Bool × PollLoop
init loop = (true, record { poll_fds = []; connections = [] })

unfoldable pub add_connection : Option ℕ → Heap → PollLoop → Option (Bool × PollLoop)
add_connection none heap loop = some (false, loop)
add_connection (some p) heap loop = do
  conn ← heap p
  some (
    true,
    record {
      poll_fds = loop.poll_fds ++ (conn.client_fd ∷ []);
      connections = loop.connections ++ (p ∷ []);
    },
  )

module _ (world : World) (readable : ℤ → Bool) where
  -- The search for the connection of a ready descriptor.
  unfoldable pub dispatch : ℤ → List ℕ → Heap → Option (Heap × Trace)
  dispatch fd [] heap = some (heap, [])
  dispatch fd (p ∷ ps) heap = do
    conn ← heap p
    let rest = dispatch fd ps heap
    if same_fd conn.client_fd fd then read_at world p heap else rest

  unfoldable pub visit : List ℤ → List ℕ → Heap → Option (Heap × Trace)
  visit [] conns heap = some (heap, [])
  visit (fd ∷ fds) conns heap = do
    seen ← (if readable fd then dispatch fd conns heap else some (heap, []))
    rest ← visit fds conns seen.0
    some (rest.0, seen.1 ++ rest.1)

  -- A round of `run`: `poll` returned `eventnum` and set POLLIN where `readable`.
  unfoldable pub round : ℤ → PollLoop → Heap → Option (Heap × Trace)
  round eventnum loop heap =
      if is_positive eventnum then visit loop.poll_fds loop.connections heap else some (heap, [])
