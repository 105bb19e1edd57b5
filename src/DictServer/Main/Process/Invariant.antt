-- ===== src/DictServer/Main/Process/Invariant.antt =====
-- main.cpp and EpollLoop.cpp: the invariant of the two threads, and the main thread's acts.
use study_code.Prelude.{
  ℕ, ◌≡◌, refl, sym, ap, ◌∙◌, subst, true, false, none, some, List, [], ◌∷◌, ◌++◌, arith, ◌||◌,
  ◌&&◌, not, Option, Bool-cases, inl, inr,
}
use study_code.Prelude.Int.{is_positive, is_negative}
use study_code.Sys.{Trace}
use study_code.DictServer.Connection.{Connection, new_connection}
use study_code.DictServer.Socket.{accept_client}
use study_code.DictServer.Reactor.{Heap, update}
use study_code.DictServer.Reactor.Epoll
use study_code.DictServer.Reactor.Epoll.{Event}
use study_code.DictServer.Main.{RoundResults, accept_one}
use study_code.DictServer.Main.Reap.{mem, closed_at, open_ones, reap_lem}
use study_code.DictServer.Main.Safe.{
  IsValid, Listed-open_ones, accept_one_returns, accept_one-IsValid,
}
use study_code.DictServer.Main.Process.{Process, Act, accepts, reaps, act, unregister, register}
use study_code.DictServer.Main.Process.Ready.{
  Ready, mem-lt, mem-append, mem-open_ones_open, Ready-transfer,
}
use study_code.DictServer.Main.Process.Watched.{
  fd_of, Watched, Pending, Watched-transfer, Watched-unregister,
}

pub record Inv (p : Process) : Type 0 where
  pub valid : IsValid p.server
  pub ready : Ready p.server.heap p.server.connections p.events
  pub watched : Watched p.server.heap p.server.connections p.closing p.registered
  pub pending : Pending p.server.heap p.server.connections p.closing

-- The results of an act that keeps the invariant.
abbrev pub Continues : Act → Process → Type 0
Continues a p = (after : Process × Trace) × (act a p ≡ some after) × Inv after.0

mem-append_last : (p : ℕ) (ps : List ℕ) → mem p (ps ++ (p ∷ [])) ≡ true
mem-append_last p [] = ground arith
mem-append_last p (q ∷ ps) = ground (arith, mem-append_last p ps)

Pending-transfer :
    (heap heap' : Heap) (ps ps' : List ℕ) (closing : Option (ℕ × Trace))
    → ((p : ℕ) → mem p ps ≡ true → (mem p ps' ≡ true) × (heap' p ≡ heap p))
    → Pending heap ps closing
    → Pending heap' ps' closing
Pending-transfer heap heap' ps ps' none keep h = tt
Pending-transfer heap heap' ps ps' (some (q, calls)) keep (m, h) =
    let (m', same) = keep q m in (m', λ fd f k. h fd (ap fd_of (sym same) ∙ f) k)

-- A new connection in the heap and at the end of the list.
grown-Inv :
    (r : RoundResults) (p : Process) (conn : Connection) (trace : Trace)
    → Inv p
    → let fd = (accept_client r.accept_ret r.flags p.server.socket).0 in
      let heap = update p.server.heap p.server.next (some conn) in
      let ps = p.server.connections ++ (p.server.next ∷ []) in
      is_positive fd ≡ true
      → conn.client_fd ≡ fd
      → closed_at (some conn) ≡ false
      → Ready heap ps p.events
        × Watched heap ps p.closing (register r p.server (unregister trace p.registered))
        × Pending heap ps p.closing
grown-Inv r p conn trace v new same_fd live =
    let server = p.server in
    let heap = update server.heap server.next (some conn) in
    let ps = server.connections ++ (server.next ∷ []) in
    let keep : (q : ℕ)
        → mem q server.connections ≡ true
        → (mem q ps ≡ true) × (heap q ≡ server.heap q) =
      λ q m. (
        mem-append q server.connections (server.next ∷ []) m,
        ground (arith, mem-lt server.heap server.next q server.connections v.valid m),
      ) in
    let watched : Watched heap ps p.closing (unregister trace p.registered) =
      Watched-transfer server.heap heap server.connections ps p.closing p.closing
        (unregister trace p.registered)
        (λ q fd m f k o. let (m', same) = keep q m in (m', ap fd_of same ∙ f, rw same o))
        (Watched-unregister server.heap server.connections p.closing trace p.registered
          v.watched) in
    (
      Ready-transfer server.heap heap server.connections ps p.events
          (λ q m o absence. let (m', same) = keep q m in (m', rw same o)) v.ready,
      elim (Bool-cases (
          is_positive (accept_client r.accept_ret r.flags server.socket).0
          && not (is_negative server.loop.epfd || is_negative r.epoll_ctl_ret))) [
            | inl added ↦ rw added (
              mem-append_last server.next server.connections,
              ground (arith, same_fd),
              new,
              ground (arith, live),
              watched,
            )
            | inr refused ↦ rw refused watched
          ],
      Pending-transfer server.heap heap server.connections ps p.closing keep v.pending,
    )

pub accepts-Continues : (r : RoundResults) (p : Process) → Inv p → Continues (accepts r) p
unfolding act accept_one Epoll.add_connection
accepts-Continues r p v =
    let server = p.server in
    let (after, e) = accept_one_returns r server in
    let valid : IsValid after.0 = accept_one-IsValid r server after v.valid e in
    let fd = (accept_client r.accept_ret r.flags server.socket).0 in
    let conn = new_connection fd r.garbage in
    let registered = register r server (unregister after.1 p.registered) in
    let kept : Ready after.0.heap after.0.connections p.events
        × Watched after.0.heap after.0.connections p.closing registered
        × Pending after.0.heap after.0.connections p.closing =
      elim (Bool-cases (is_positive fd)) [
        | inl new ↦
            let h : after.0.heap ≡ update server.heap server.next (some conn) = ground arith in
            let c : after.0.connections ≡ server.connections ++ (server.next ∷ []) = ground arith in
            rw (h, c) (grown-Inv r p conn after.1 v new refl refl)
        | inr old ↦
            let same : after.0 ≡ server = ground arith in
            let none_added : register r server (unregister after.1 p.registered)
                ≡ unregister after.1 p.registered =
              ground (arith, old) in
            rw (same, none_added)
              (
                v.ready,
                Watched-unregister server.heap server.connections p.closing after.1 p.registered
                    v.watched,
                v.pending,
              )
      ] in
    (
      (record p { server = after.0; registered = registered }, after.1),
      rw e refl,
      record { valid = valid; ready = kept.0; watched = kept.1; pending = kept.2 },
    )

pub reaps-Continues : (p : Process) → Inv p → p.closing ≡ none → Continues reaps p
unfolding act
reaps-Continues p v free =
    let heap = p.server.heap in
    let ps = p.server.connections in
    let (heap', f, g) = reap_lem ps heap p.server.next v.valid in
    let same : (q : ℕ) → closed_at (heap q) ≡ false → heap' q ≡ heap q =
      λ q live. ground (arith, g q, live) in
    let registered = unregister [] p.registered in
    let watched : Watched heap' (open_ones heap ps) none registered =
      Watched-transfer heap heap' ps (open_ones heap ps) none none registered
        (λ q fd m k h o.
          let live : closed_at (heap q) ≡ false = ground (arith, o) in
          (mem-open_ones_open heap q ps live m, ap fd_of (same q live) ∙ k, rw (same q live) o))
        (Watched-unregister heap ps none [] p.registered
          (subst (λ c. Watched heap ps c p.registered) free v.watched)) in
    (
      (
        record p {
          server = record (p.server) { connections = open_ones heap ps; heap = heap' };
          registered = registered;
        },
        [],
      ),
      rw f refl,
      record {
        valid = Listed-open_ones heap heap' p.server.next ps same v.valid;
        ready =
            Ready-transfer heap heap' ps (open_ones heap ps) p.events
              (λ q m o absence. (mem-open_ones_open heap q ps o m, rw (same q o) o)) v.ready;
        watched = subst (λ c. Watched heap' (open_ones heap ps) c registered) (sym free) watched;
        pending = subst (λ c. Pending heap' (open_ones heap ps) c) (sym free) tt;
      },
    )
