-- ===== src/DictServer/Reactor/Select.antt =====
-- SelectLoop.cpp.
pub mod Divided
pub mod Serial
pub mod Dangling
use study_code.Prelude.{
  ◌>>=◌, ℕ, Bool, true, false, ◌&&◌, ◌||◌, Option, none, some, List, [], ◌∷◌, ◌++◌, ltb,
  if◌then◌else◌,
}
use study_code.Prelude.Int.{ℤ, pos, negsuc, ltb_ℤ, is_positive}
use study_code.Sys.{Trace, same_fd}
use study_code.DictServer.Reactor.{Heap, World, is_closed, read_at}

pub record SelectLoop : Type 0 where
  pub read_fds : List ℤ
  pub max_fd : ℤ
  pub connections : List ℕ

unfoldable pub init : SelectLoop → Bool × SelectLoop
init loop = (true, record loop { read_fds = []; max_fd = pos 0 })

-- FD_SETSIZE
abbrev pub fd_setsize : ℕ
fd_setsize = 1024

-- `FD_SET`, which writes outside the set for any other descriptor.
abbrev pub fd_set : ℤ → List ℤ → Option (List ℤ)
fd_set (negsuc n) fds = none
fd_set (pos n) fds = if ltb n fd_setsize then some (pos n ∷ fds) else none

abbrev pub fd_isset : ℤ → List ℤ → Bool
fd_isset fd [] = false
fd_isset fd (f ∷ fds) = same_fd fd f || fd_isset fd fds

unfoldable pub add_connection : Option ℕ → Heap → SelectLoop → Option (Bool × SelectLoop)
add_connection none heap loop = some (false, loop)
add_connection (some p) heap loop = do
  conn ← heap p
  fds ← fd_set conn.client_fd loop.read_fds
  let max_fd = if ltb_ℤ loop.max_fd conn.client_fd then conn.client_fd else loop.max_fd
  some
      (true, record { read_fds = fds; max_fd = max_fd; connections = loop.connections ++ (p ∷ []) })

module _ (world : World) (ready : ℤ → Bool) where
  -- One connection of the loop behind `select`.
  unfoldable pub visit_one : List ℤ → ℕ → Heap → Option (Heap × Trace)
  visit_one fds p heap = do
    conn ← heap p
    if is_closed conn.status
        then some (heap, [])
        else if fd_isset conn.client_fd fds && ready conn.client_fd
        then read_at world p heap
        else some (heap, [])

  unfoldable pub visit : List ℤ → List ℕ → Heap → Option (Heap × Trace)
  unfolding visit_one
  visit fds [] heap = some (heap, [])
  visit fds (p ∷ ps) heap = do
    seen ← visit_one fds p heap
    rest ← visit fds ps seen.0
    some (rest.0, seen.1 ++ rest.1)

  -- A round of `run`: `select` returned `eventnum` and left those descriptors of the set that are
  -- `ready`.
  unfoldable pub round : ℤ → SelectLoop → Heap → Option (Heap × Trace)
  round eventnum loop heap =
      if is_positive eventnum then visit loop.read_fds loop.connections heap else some (heap, [])
