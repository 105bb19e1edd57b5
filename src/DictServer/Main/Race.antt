-- ===== src/DictServer/Main/Race.antt =====
-- Connection.cpp and main.cpp: `closeConnection` in its two parts, with the main thread between them.
use study_code.Prelude.{
  ℕ, ◌≡◌, refl, Bool, true, false, Option, none, some, List, [], ◌∷◌, arith, ◌>>=◌, if◌then◌else◌,
}
use study_code.Sys.{Trace}
use study_code.DictServer.Utils.{closefd}
use study_code.DictServer.Connection.{Connection, connected, closed, close_connection}
use study_code.DictServer.Reactor.{Heap, is_closed, update}
use study_code.DictServer.Main.{reap}
use study_code.DictServer.Main.Reap.{mem, Listed, reap_lem}

-- The test and `m_status = CLOSED`, and whether the method goes on.
unfoldable pub mark_closed : ℕ → Heap → Option (Heap × Bool)
mark_closed p heap = do
  conn ← heap p
  some (
      if is_closed conn.status
      then (heap, false)
      else (update heap p (some (record conn { status = closed })), true))

-- `Utils::closefd(m_clientfd)`, which reads the member again.
unfoldable pub close_marked : ℕ → Heap → Option Trace
close_marked p heap = do conn ← heap p; some (closefd conn.client_fd)

mark_closed_open :
    (p : ℕ) (heap : Heap) (conn : Connection)
    → heap p ≡ some conn
    → is_closed conn.status ≡ false
    → mark_closed p heap ≡ some (update heap p (some (record conn { status = closed })), true)
unfolding mark_closed
mark_closed_open p heap conn e s = ground (arith, e, s)

-- Without a thread between them the two parts are the method.
close_connection_split :
    (p : ℕ) (heap : Heap) (conn : Connection)
    → heap p ≡ some conn
    → conn.status ≡ connected
    → (heap' : Heap) × (mark_closed p heap ≡ some (heap', true))
      × (heap' p ≡ some (close_connection conn).0)
      × (close_marked p heap' ≡ some (close_connection conn).1)
unfolding mark_closed close_marked close_connection
close_connection_split p heap conn e s = (
  update heap p (some (record conn { status = closed })),
  ground (arith, e, s),
  ground (arith, s),
  ground (arith, s),
)

-- The loop's thread marks the connection, the main thread erases the closed connections, and the
-- loop's thread goes on.
unfoldable pub marked_and_reaped : ℕ → List ℕ → Heap → Option Trace
marked_and_reaped p ps heap = do
  marked ← mark_closed p heap
  reaped ← reap ps marked.0
  if marked.1 then close_marked p reaped.1 else some []

Listed-marked :
    (heap : Heap) (next p : ℕ) (conn : Connection) (ps : List ℕ)
    → Listed heap next ps
    → Listed (update heap p (some conn)) next ps
Listed-marked heap next p conn [] l = tt
Listed-marked heap next p conn (q ∷ ps) (lt, a, d, l) =
    (lt, ground arith, d, Listed-marked heap next p conn ps l)

-- If the main thread erases the closed connections between the two statements of `closeConnection`
-- of a listed connection that is open, the second statement reads a destroyed object.
pub marked_and_reaped_faults :
    (p next : ℕ) (ps : List ℕ) (heap : Heap) (conn : Connection)
    → Listed heap next ps
    → mem p ps ≡ true
    → heap p ≡ some conn
    → is_closed conn.status ≡ false
    → marked_and_reaped p ps heap ≡ none
unfolding marked_and_reaped close_marked
marked_and_reaped_faults p next ps heap conn l m e open_one =
    let marked = update heap p (some (record conn { status = closed })) in
    let (heap', f, g) =
      reap_lem ps marked next (Listed-marked heap next p (record conn { status = closed }) ps l) in
    let gone : heap' p ≡ none = ground (arith, g p, m) in
    rw (mark_closed_open p heap conn e open_one) (rw f (rw gone refl))
