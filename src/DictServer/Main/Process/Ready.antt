-- ===== src/DictServer/Main/Process/Ready.antt =====
-- The fetched events while connections come and go.
use study_code.Prelude.{
  ℕ, ◌<◌, ◌≡◌, sym, subst, true, false, none, some, List, [], ◌∷◌, ◌++◌, arith, ◌==◌, Bool-cases,
  inl, inr,
}
use study_code.DictServer.Reactor.{Heap}
use study_code.DictServer.Reactor.Epoll.{Event}
use study_code.DictServer.Main.Reap.{mem, closed_at, Listed, open_ones}
use study_code.DictServer.Main.Process.{absent}

-- The events carry distinct pointers to listed connections that are open.
abbrev pub Ready : Heap → List ℕ → List Event → Type 0
Ready heap ps [] = Unit
Ready heap ps ((none, input) ∷ events) = Ready heap ps events
Ready heap ps ((some p, input) ∷ events) =
    (mem p ps ≡ true)
    × (closed_at (heap p) ≡ false)
    × (absent p events ≡ true)
    × Ready heap ps events

pub mem-lt :
    (heap : Heap) (next p : ℕ) (ps : List ℕ) → Listed heap next ps → mem p ps ≡ true → p < next
mem-lt heap next p [] l h = cc
mem-lt heap next p (q ∷ ps) (lt, a, d, l) h = elim (Bool-cases (q == p)) [
  | inl same ↦ ground arith
  | inr other ↦ mem-lt heap next p ps l (ground arith)
]

pub mem-append : (p : ℕ) (ps qs : List ℕ) → mem p ps ≡ true → mem p (ps ++ qs) ≡ true
mem-append p [] qs h = cc
mem-append p (q ∷ ps) qs h = ground (arith, mem-append p ps qs)

pub mem-open_ones_open :
    (heap : Heap) (p : ℕ) (ps : List ℕ)
    → closed_at (heap p) ≡ false
    → mem p ps ≡ true
    → mem p (open_ones heap ps) ≡ true
mem-open_ones_open heap p [] o h = cc
mem-open_ones_open heap p (q ∷ ps) o h = elim (Bool-cases (q == p)) [
  | inl same ↦
      let e : q ≡ p = ground arith in
      let o' : closed_at (heap q) ≡ false = subst (λ z. closed_at (heap z) ≡ false) (sym e) o in
      rw o' (ground arith)
  | inr other ↦ ground (arith, mem-open_ones_open heap p ps o)
]

-- What stays ready when the heap and the list change elsewhere only.
pub Ready-transfer :
    (heap heap' : Heap) (ps ps' : List ℕ) (events : List Event)
    → ((p : ℕ)
        → mem p ps ≡ true
        → closed_at (heap p) ≡ false
        → absent p events ≡ false
        → (mem p ps' ≡ true) × (closed_at (heap' p) ≡ false))
    → Ready heap ps events
    → Ready heap' ps' events
Ready-transfer heap heap' ps ps' [] keep r = tt
Ready-transfer heap heap' ps ps' ((none, input) ∷ events) keep r =
    Ready-transfer heap heap' ps ps' events keep r
Ready-transfer heap heap' ps ps' ((some p, input) ∷ events) keep (m, o, d, r) =
    let (m', o') = keep p m o (ground arith) in
    (
      m',
      o',
      d,
      Ready-transfer heap heap' ps ps' events (λ q n c e. keep q n c (ground (arith, e))) r,
    )
