-- ===== src/DictServer/Reactor/Epoll.antt =====
-- EpollLoop.cpp.
use study_code.Prelude.{
  ◌>>=◌, ℕ, Bool, true, false, Option, none, some, List, [], ◌∷◌, ◌++◌, if◌then◌else◌,
}
use study_code.Prelude.Int.{ℤ, is_positive, is_negative}
use study_code.Sys.{Trace}
use study_code.DictServer.Utils.{check_error, closefd}
use study_code.DictServer.Reactor.{Heap, World, is_closed, read_at}

pub record EpollLoop : Type 0 where
  pub epfd : ℤ
  pub connections : List ℕ

-- `created` is what `epoll_create1` returns.
unfoldable pub init : ℤ → EpollLoop → Bool × EpollLoop
init created loop =
    if check_error created
    then (true, record { epfd = created; connections = [] })
    else (false, record loop { epfd = created })

-- `added` is what `epoll_ctl` returns.
unfoldable pub add_connection : ℤ → Option ℕ → Heap → EpollLoop → Option (Bool × EpollLoop)
add_connection added none heap loop = some (false, loop)
add_connection added (some p) heap loop = if is_negative loop.epfd then some (false, loop) else (do
  conn ← heap p
  if is_negative added
      then some (false, loop)
      else some (true, record loop { connections = loop.connections ++ (p ∷ []) }))

unfoldable pub destroy : EpollLoop → Trace
destroy loop = closefd loop.epfd

-- An entry of `events`: the pointer bound to the descriptor, and whether EPOLLIN is set.
abbrev pub Event : Type 0
Event = Option ℕ × Bool

module _ (world : World) where
  unfoldable pub visit_one : Event → Heap → Option (Heap × Trace)
  visit_one (none, input) heap = some (heap, [])
  visit_one (some p, input) heap = do
    conn ← heap p
    if is_closed conn.status
        then some (heap, [])
        else if input
        then read_at world p heap
        else some (heap, [])

  unfoldable pub visit : List Event → Heap → Option (Heap × Trace)
  unfolding visit_one
  visit [] heap = some (heap, [])
  visit (event ∷ events) heap = do
    seen ← visit_one event heap
    rest ← visit events seen.0
    some (rest.0, seen.1 ++ rest.1)

  -- A round of `run`: `epoll_wait` returned `eventnum` and filled in `events`, of that length.
  unfoldable pub round : ℤ → List Event → Heap → Option (Heap × Trace)
  round eventnum events heap = if is_positive eventnum then visit events heap else some (heap, [])
