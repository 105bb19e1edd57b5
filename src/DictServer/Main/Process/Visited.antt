-- ===== src/DictServer/Main/Process/Visited.antt =====
-- EpollLoop.cpp: what the body for one event leaves of the invariant.
use study_code.Prelude.{
  ℕ, ◌≡◌, sym, ap, ◌∙◌, subst, Bool, true, false, none, some, List, [], ◌∷◌, arith, ◌==◌, ◌||◌,
  ◌&&◌, not, Bool-cases, Option-cases, inl, inr,
}
use study_code.Prelude.Int.{ℤ, is_positive}
use study_code.Sys.{Trace}
use study_code.DictServer.Connection.{Connection}
use study_code.DictServer.Reactor.{Heap, World, is_closed}
use study_code.DictServer.Reactor.Epoll
use study_code.DictServer.Reactor.Epoll.{Event}
use study_code.DictServer.Main.Reap.{mem, allocated, closed_at}
use study_code.DictServer.Main.Process.{absent, at_close, pending, has_close}
use study_code.DictServer.Main.Process.Visits.{visit_one-Closes, visit_one-other, is_empty}
use study_code.DictServer.Main.Process.Watched.{fd_of, marked, Watched, Pending, Watched-transfer}

pub absent-other :
    (q j : ℕ) (events : List Event)
    → absent q events ≡ true
    → absent j events ≡ false
    → (q == j) ≡ false
absent-other q j events d seen = elim (Bool-cases (q == j)) [
  | inl here ↦
      let clash : true ≡ false =
        sym (subst (λ z. absent z events ≡ true) (let there : q ≡ j = ground arith in there) d)
        ∙ seen in
      cc
  | inr there ↦ there
]

marked_or_open :
    (q : ℕ) (input : Bool) (behind : Trace) (heap : Heap) (conn : Connection)
    → heap q ≡ some conn
    → (fd : ℤ) → (has_close fd behind || (is_empty behind && not (is_closed conn.status))) ≡ true
    → (not (closed_at (heap q)) || marked q (pending (some q, input) behind)) ≡ true
marked_or_open q input [] heap conn c fd h = rw c (ground (arith, h))
marked_or_open q input (call ∷ behind) heap conn c fd h = ground arith

pending-Pending :
    (q : ℕ) (input : Bool) (behind : Trace) (heap : Heap) (ps : List ℕ) (conn : Connection)
    → mem q ps ≡ true
    → heap q ≡ some conn
    → (fd : ℤ) → conn.client_fd ≡ fd
    → (is_positive fd ≡ true
        → (has_close fd behind || (is_empty behind && not (is_closed conn.status))) ≡ true)
    → Pending heap ps (pending (some q, input) behind)
pending-Pending q input [] heap ps conn m c fd same h = tt
pending-Pending q input (call ∷ behind) heap ps conn m c fd same h = (
  m,
  λ fd' f k.
      let own : fd ≡ fd' = ground (arith, c, f, same) in
      let k' : is_positive fd ≡ true = rw own k in
      let shut : has_close fd (call ∷ behind) ≡ true = ground (arith, h k') in
      subst (λ z. has_close z (call ∷ behind) ≡ true) own shut,
)

-- The watched descriptors and the held calls behind the body for an event of an open connection.
pub visited-Watched :
    (world : World) (q : ℕ) (input : Bool) (heap : Heap) (ps : List ℕ) (registered : List (ℤ × ℕ))
    (after : Heap × Trace)
    → mem q ps ≡ true
    → closed_at (heap q) ≡ false
    → allocated (heap q) ≡ true
    → Epoll.visit_one world (some q, input) heap ≡ some after
    → Watched heap ps none registered
    → let closing = pending (some q, input) (at_close after.1).1 in
      Watched after.0 ps closing registered × Pending after.0 ps closing
visited-Watched world q input heap ps registered after m o a e w = elim (Option-cases (heap q)) [
  | inl n ↦ absurd (ground (arith, n, a))
  | inr (conn, c) ↦
      let behind = (at_close after.1).1 in
      let live : is_closed conn.status ≡ false = ground (arith, c, o) in
      let (conn', c', (same, shuts)) = visit_one-Closes world q input heap conn after c live e in
      (
        Watched-transfer heap after.0 ps ps none (pending (some q, input) behind) registered
            (λ p fd n f k u. elim (Bool-cases (q == p)) [
              | inl here ↦
                  let there : q ≡ p = ground (arith, here) in
                  let f' : fd_of (heap q) ≡ some fd =
                    subst (λ z. fd_of (heap z) ≡ some fd) (sym there) f in
                  let own : conn.client_fd ≡ fd = ground (arith, c, f') in
                  let k' : is_positive conn.client_fd ≡ true = rw own k in
                  (
                    n,
                    subst (λ z. fd_of (after.0 z) ≡ some fd) there (ground (arith, c', same, own)),
                    subst
                        (λ z.
                          (not (closed_at (after.0 z)) || marked z (pending (some q, input) behind))
                          ≡ true)
                        there
                        (marked_or_open q input behind after.0 conn' c' conn.client_fd (shuts k')),
                  )
              | inr elsewhere ↦
                  let unchanged = visit_one-other world q p input heap after elsewhere e in
                  (n, ap fd_of unchanged ∙ f, rw unchanged (ground (arith, u)))
            ])
            w,
        pending-Pending q input behind after.0 ps conn' m c' conn.client_fd same shuts,
      )
]
