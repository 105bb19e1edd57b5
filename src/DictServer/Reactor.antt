-- ===== src/DictServer/Reactor.antt =====
-- Project_TCPServer_Plus/src/reactor: what the three event loops share. A connection is reached by a
-- pointer into a heap, in which a destroyed connection is `none`; a step that follows a dangling
-- pointer, or overruns a `fd_set`, is `none`. A round of a loop is one step, which Steps divides.
pub mod Select
pub mod Poll
pub mod Epoll
pub mod Agree
pub mod Steps
pub mod Faults
use study_code.Prelude.{◌>>=◌, ℕ, Bool, true, false, Option, none, some, ◌==◌, if◌then◌else◌}
use study_code.Prelude.Int.{ℤ}
use study_code.Sys.{Trace}
use study_code.DictServer.Connection.{Connection, ConnStatus, connected, closed, Io, read_data}

abbrev pub Heap : Type 0
Heap = ℕ → Option Connection

abbrev pub update : Heap → ℕ → Option Connection → Heap
update heap p c q = if p == q then c else heap q

-- What `recv` and `send` answer on each descriptor during a round.
abbrev pub World : Type 0
World = ℤ → Io

abbrev pub is_closed : ConnStatus → Bool
is_closed connected = false
is_closed closed = true

-- `conn->readData()`
unfoldable pub read_at : World → ℕ → Heap → Option (Heap × Trace)
read_at world p heap = do
  conn ← heap p
  after ← read_data (world conn.client_fd) conn
  some (update heap p (some after.0), after.1)
