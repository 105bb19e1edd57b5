-- ===== src/DictServer/Main/Process/Whole.antt =====
-- EpollLoop.cpp: the two parts of the body for one event, with no other act between them.
use study_code.Prelude.{
  ℕ, ◌≡◌, refl, ap, ◌∙◌, Bool, true, some, List, [], ◌∷◌, ◌++◌, arith, ◌>>=◌, Option-cases, inl,
  inr,
}
use study_code.Sys.{Trace, close}
use study_code.DictServer.Reactor.{Heap, World}
use study_code.DictServer.Reactor.Epoll
use study_code.DictServer.Reactor.Epoll.{Event}
use study_code.DictServer.Main.Reap.{allocated}
use study_code.DictServer.Main.Process.{Process, visits, finishes, act, at_close, pending}

at_close-append : (trace : Trace) → (at_close trace).0 ++ (at_close trace).1 ≡ trace
at_close-append [] = refl
at_close-append (close fd ∷ trace) = refl
at_close-append (call ∷ trace) = ap (λ rest. call ∷ rest) (at_close-append trace)

-- The heap behind an act, and its calls behind those before it.
abbrev pub behind_calls : Trace → Process × Trace → Heap × Trace
behind_calls now after = (after.0.server.heap, now ++ after.1)

finish_held :
    (q : ℕ) (input : Bool) (now behind : Trace) (p : Process)
    → allocated (p.server.heap q) ≡ true
    → p.closing ≡ pending (some q, input) behind
    → (do after ← act finishes p; some (behind_calls now after))
      ≡ some (p.server.heap, now ++ behind)
unfolding act
finish_held q input now [] p live e = rw e refl
finish_held q input now (call ∷ behind) p live e = elim (Option-cases (p.server.heap q)) [
  | inl n ↦ absurd (ground (arith, n, live))
  | inr (conn, c) ↦ rw e (rw c refl)
]

-- Where no other act comes between, the two parts are the body of the loop: the same heap and the
-- same calls.
pub visits_then_finishes :
    (world : World) (q : ℕ) (input : Bool) (events : List Event) (p : Process)
    (after : Heap × Trace)
    → p.events ≡ (some q, input) ∷ events
    → Epoll.visit_one world (some q, input) p.server.heap ≡ some after
    → allocated (after.0 q) ≡ true
    → (do
      first ← act (visits world) p
      second ← act finishes first.0
      some (behind_calls first.1 second))
      ≡ some after
unfolding act
visits_then_finishes world q input events p after e f live = rw e (
    rw f (
      finish_held q input (at_close after.1).0 (at_close after.1).1
        (record p {
          server = record (p.server) { heap = after.0 };
          events = events;
          closing = pending (some q, input) (at_close after.1).1;
        })
        live refl
      ∙ ap (λ trace. some (after.0, trace)) (at_close-append after.1)))
