-- ===== src/DictServer/Main/Process.antt =====
-- main.cpp and EpollLoop.cpp: the two threads interleaved between the events of a round, between
-- accepting and erasing, and between the two statements of `closeConnection`; and what the kernel keeps.
pub mod Ready
pub mod Visits
pub mod Watched
pub mod Invariant
pub mod Visited
pub mod Whole
pub mod Safety
use study_code.Prelude.{
  ℕ, ◌≡◌, Bool, true, false, not, Option, none, some, List, [], ◌∷◌, ◌==◌, ◌||◌, ◌&&◌, ◌>>=◌,
  if◌then◌else◌,
}
use study_code.Prelude.Int.{ℤ, is_positive, is_negative}
use study_code.Sys.{
  SysCall, Trace, socket, setsockopt, bind, listen, accept, recv, send, close, same_fd,
}
use study_code.DictServer.Socket.{accept_client}
use study_code.DictServer.Reactor.{World}
use study_code.DictServer.Reactor.Epoll
use study_code.DictServer.Reactor.Epoll.{EpollLoop, Event}
use study_code.DictServer.Main.{Server, RoundResults, StartResults, start, accept_one, reap}
use study_code.DictServer.Main.Threads.{Fits}

-- `events` are those that the loop's thread has fetched and not yet looked at, `registered` is the
-- kernel's: the descriptors that epoll watches, with the pointers bound to them. `closing` is the
-- connection that the loop's thread has marked as closed, with the calls of `closeConnection` behind
-- the mark.
pub record Process : Type 0 where
  pub server : Server
  pub events : List Event
  pub registered : List (ℤ × ℕ)
  pub closing : Option (ℕ × Trace)

abbrev pub has_close : ℤ → Trace → Bool
has_close fd [] = false
has_close fd (close fd' ∷ trace) = same_fd fd fd' || has_close fd trace
has_close fd (_ ∷ trace) = has_close fd trace

-- A closed descriptor is no longer watched.
abbrev pub unregister : Trace → List (ℤ × ℕ) → List (ℤ × ℕ)
unregister trace [] = []
unregister trace ((fd, p) ∷ registered) =
    let rest = unregister trace registered in if has_close fd trace then rest else (fd, p) ∷ rest

-- `epoll_ctl` of `addConnection`, where it is called and succeeds.
abbrev pub register : RoundResults → Server → List (ℤ × ℕ) → List (ℤ × ℕ)
register r server registered =
    let client_fd = (accept_client r.accept_ret r.flags server.socket).0 in
    if is_positive client_fd && not (is_negative server.loop.epfd || is_negative r.epoll_ctl_ret)
    then (client_fd, server.next) ∷ registered
    else registered

-- A trace before its first `close`, and from it on.
abbrev pub at_close : Trace → Trace × Trace
at_close [] = ([], [])
at_close (close fd ∷ trace) = ([], close fd ∷ trace)
at_close (call ∷ trace) = let rest = at_close trace in (call ∷ rest.0, rest.1)

abbrev pub pending : Event → Trace → Option (ℕ × Trace)
pending (none, input) behind = none
pending (some p, input) [] = none
pending (some p, input) (call ∷ behind) = some (p, call ∷ behind)

pub data Act : Type 0 where
  accepts : RoundResults → Act
  reaps : Act
  waits : (eventnum : ℤ) (events : List Event) → Act
  visits : World → Act
  finishes : Act

visit_next : World → List Event → Process → Option (Process × Trace)
visit_next world [] p = some (p, [])
visit_next world (event ∷ events) p = do
  after ← Epoll.visit_one world event p.server.heap
  let (now, behind) = at_close after.1
  some (
    record p {
      server = record (p.server) { heap = after.0 };
      events = events;
      closing = pending event behind;
    },
    now,
  )

-- `m_clientfd` is read again for the call of `close`, from the object behind the pointer.
finish : Option (ℕ × Trace) → Process → Option (Process × Trace)
finish none p = some (p, [])
finish (some (q, calls)) p = do
  conn ← p.server.heap q
  some (record p { closing = none; registered = unregister calls p.registered }, calls)

-- A thread's part between two points at which the other may run: accepting a connection, erasing the
-- closed ones, a return of `epoll_wait`, the body of the loop over its events for one event up to
-- the call of `close`, if it makes one, and that call.
unfoldable pub act : Act → Process → Option (Process × Trace)
unfolding visit_next finish
act (accepts r) p = do
  after ← accept_one r p.server
  some (
    record p {
      server = after.0;
      registered = register r p.server (unregister after.1 p.registered);
    },
    after.1,
  )
act reaps p = do
  after ← reap p.server.connections p.server.heap
  some (
    record p {
      server = record (p.server) { connections = after.0; heap = after.1 };
      registered = unregister after.2 p.registered;
    },
    after.2,
  )
act (waits eventnum events) p =
    some (if is_positive eventnum then record p { events = events } else p, [])
act (visits world) p = visit_next world p.events p
act finishes p = finish p.closing p

-- No event of the list carries the pointer.
abbrev pub absent : ℕ → List Event → Bool
absent p [] = true
absent p ((none, input) ∷ events) = absent p events
absent p ((some q, input) ∷ events) = (if p == q then false else true) && absent p events

abbrev pub bound : ℕ → List (ℤ × ℕ) → Bool
bound p [] = false
bound p ((fd, q) ∷ registered) = p == q || bound p registered

-- Every event carries a pointer that is bound to a watched descriptor, each at most once.
abbrev pub Reported : List (ℤ × ℕ) → List Event → Type 0
Reported registered [] = Unit
Reported registered ((none, input) ∷ events) = ⊥
Reported registered ((some p, input) ∷ events) =
    (bound p registered ≡ true) × (absent p events ≡ true) × Reported registered events

-- A thread's own order: the loop's thread calls `close` before it looks at the next event, and
-- `epoll_wait` when no event is left. The kernel's part: a message fits the buffer, and `epoll_wait`
-- reports watched descriptors, each once. And the schedule's: the main thread does not erase while
-- the loop's thread is between the mark and the call of `close`.
abbrev pub Allowed : Act → Process → Type 0
Allowed (accepts r) p = Unit
Allowed reaps p = p.closing ≡ none
Allowed (waits eventnum events) p =
    (p.events ≡ []) × (p.closing ≡ none) × Reported p.registered events
Allowed (visits world) p = Fits world × (p.closing ≡ none)
Allowed finishes p = Unit

-- Any order of acts that is allowed, after the start.
pub data Runs (r : StartResults) : Process → Type 0 where
  begun : Runs r (record { server = (start r).0; events = []; registered = []; closing = none })
  later :
      {p q : Process}
      → Runs r p
      → (a : Act) (trace : Trace) → Allowed a p
      → act a p ≡ some (q, trace)
      → Runs r q
