-- ===== src/DictServer/Main/Process/Watched.antt =====
-- EpollLoop.cpp: the descriptors that epoll watches, against the list of connections.
use study_code.Prelude.{
  ℕ, ◌≡◌, subst, Bool, true, false, not, Option, none, some, List, [], ◌∷◌, ◌||◌, arith, ◌==◌,
  Bool-cases, inl, inr,
}
use study_code.Prelude.Int.{ℤ, is_positive}
use study_code.Sys.{Trace}
use study_code.DictServer.Connection.{Connection}
use study_code.DictServer.Reactor.{Heap}
use study_code.DictServer.Reactor.Epoll.{Event}
use study_code.DictServer.Main.Reap.{mem, closed_at}
use study_code.DictServer.Main.Process.{has_close, unregister, bound, Reported}
use study_code.DictServer.Main.Process.Ready.{Ready}

abbrev pub fd_of : Option Connection → Option ℤ
fd_of none = none
fd_of (some conn) = some conn.client_fd

abbrev pub marked : ℕ → Option (ℕ × Trace) → Bool
marked p none = false
marked p (some (q, calls)) = p == q

-- Each pointer bound to a watched descriptor is listed and leads to the connection of the
-- descriptor, which is open but where it is just being closed.
abbrev pub Watched : Heap → List ℕ → Option (ℕ × Trace) → List (ℤ × ℕ) → Type 0
Watched heap ps closing [] = Unit
Watched heap ps closing ((fd, p) ∷ registered) =
    (mem p ps ≡ true)
    × (fd_of (heap p) ≡ some fd)
    × (is_positive fd ≡ true)
    × ((not (closed_at (heap p)) || marked p closing) ≡ true)
    × Watched heap ps closing registered

-- The calls behind the mark close the descriptor.
abbrev pub Pending : Heap → List ℕ → Option (ℕ × Trace) → Type 0
Pending heap ps none = Unit
Pending heap ps (some (q, calls)) =
    (mem q ps ≡ true)
    × ((fd : ℤ) → fd_of (heap q) ≡ some fd → is_positive fd ≡ true → has_close fd calls ≡ true)

pub Watched-transfer :
    (heap heap' : Heap) (ps ps' : List ℕ) (closing closing' : Option (ℕ × Trace))
    (registered : List (ℤ × ℕ))
    → ((p : ℕ) (fd : ℤ)
        → mem p ps ≡ true
        → fd_of (heap p) ≡ some fd
        → is_positive fd ≡ true
        → (not (closed_at (heap p)) || marked p closing) ≡ true
        → (mem p ps' ≡ true)
          × (fd_of (heap' p) ≡ some fd)
          × ((not (closed_at (heap' p)) || marked p closing') ≡ true))
    → Watched heap ps closing registered
    → Watched heap' ps' closing' registered
Watched-transfer heap heap' ps ps' closing closing' [] keep w = tt
Watched-transfer heap heap' ps ps' closing closing' ((fd, p) ∷ registered) keep (m, f, k, o, w) =
    let (m', f', o') = keep p fd m f k o in
    (m', f', k, o', Watched-transfer heap heap' ps ps' closing closing' registered keep w)

pub Watched-unregister :
    (heap : Heap) (ps : List ℕ) (closing : Option (ℕ × Trace)) (trace : Trace)
    (registered : List (ℤ × ℕ))
    → Watched heap ps closing registered
    → Watched heap ps closing (unregister trace registered)
Watched-unregister heap ps closing trace [] w = tt
Watched-unregister heap ps closing trace ((fd, p) ∷ registered) (m, f, k, o, w) =
    let rest = Watched-unregister heap ps closing trace registered w in
    elim (Bool-cases (has_close fd trace)) [
      | inl gone ↦ rw gone rest
      | inr kept ↦ rw kept (m, f, k, o, rest)
    ]

-- When the calls behind the mark are made, no watched descriptor is one of a closed connection.
pub Watched-finish :
    (heap : Heap) (ps : List ℕ) (q : ℕ) (calls : Trace) (registered : List (ℤ × ℕ))
    → Pending heap ps (some (q, calls))
    → Watched heap ps (some (q, calls)) registered
    → Watched heap ps none (unregister calls registered)
Watched-finish heap ps q calls [] h w = tt
Watched-finish heap ps q calls ((fd, p) ∷ registered) h (m, f, k, o, w) =
    let rest = Watched-finish heap ps q calls registered h w in
    elim (Bool-cases (has_close fd calls)) [
      | inl gone ↦ rw gone rest
      | inr kept ↦ elim (Bool-cases (p == q)) [
        | inl same ↦
            let e : p ≡ q = ground (arith, same) in
            let shut : has_close fd calls ≡ true =
              h.1 fd (subst (λ z. fd_of (heap z) ≡ some fd) e f) k in
            absurd (cc (kept, shut))
        | inr other ↦
            let still : (not (closed_at (heap p)) || false) ≡ true = rw other at o in
            rw kept (m, f, k, still, rest)
      ]
    ]

Watched-bound :
    (heap : Heap) (ps : List ℕ) (p : ℕ) (registered : List (ℤ × ℕ))
    → Watched heap ps none registered
    → bound p registered ≡ true
    → (mem p ps ≡ true) × (closed_at (heap p) ≡ false)
Watched-bound heap ps p [] w h = absurd (cc h)
Watched-bound heap ps p ((fd, q) ∷ registered) (m, f, k, o, w) h = elim (Bool-cases (p == q)) [
  | inl same ↦
      let e : q ≡ p = ground (arith, same) in
      let still : closed_at (heap q) ≡ false = ground (arith, o) in
      (subst (λ z. mem z ps ≡ true) e m, subst (λ z. closed_at (heap z) ≡ false) e still)
  | inr other ↦ Watched-bound heap ps p registered w (ground (arith, h, other))
]

-- What `epoll_wait` reports is ready.
pub Reported-Ready :
    (heap : Heap) (ps : List ℕ) (registered : List (ℤ × ℕ)) (events : List Event)
    → Watched heap ps none registered
    → Reported registered events
    → Ready heap ps events
Reported-Ready heap ps registered [] w r = tt
Reported-Ready heap ps registered ((none, input) ∷ events) w r = elim r [ ]
Reported-Ready heap ps registered ((some p, input) ∷ events) w (b, d, r) =
    let (m, o) = Watched-bound heap ps p registered w b in
    (m, o, d, Reported-Ready heap ps registered events w r)
