-- ===== src/DictServer/Main/Reap.antt =====
-- main.cpp: what the loop that erases closed connections leaves.
use study_code.Prelude.{
  ℕ, ◌<◌, ◌≡◌, refl, Bool, true, false, ◌&&◌, ◌||◌, Option, none, some, List, [], ◌∷◌, arith, ◌==◌,
  if◌then◌else◌, Bool-cases, Option-cases, inl, inr,
}
use study_code.DictServer.Connection.{Connection, ConnStatus, connected, closed}
use study_code.DictServer.Connection
use study_code.DictServer.Reactor.{Heap, is_closed, update}
use study_code.DictServer.Main.{reap}

abbrev pub mem : ℕ → List ℕ → Bool
mem q [] = false
mem q (p ∷ ps) = p == q || mem q ps

abbrev pub allocated : Option Connection → Bool
allocated none = false
allocated (some conn) = true

abbrev pub closed_at : Option Connection → Bool
closed_at none = false
closed_at (some conn) = is_closed conn.status

-- Distinct pointers to connections, all handed out by the allocator.
abbrev pub Listed : Heap → ℕ → List ℕ → Type 0
Listed heap next [] = Unit
Listed heap next (p ∷ ps) =
    (p < next) × (allocated (heap p) ≡ true) × (mem p ps ≡ false) × Listed heap next ps

abbrev pub open_ones : Heap → List ℕ → List ℕ
open_ones heap [] = []
open_ones heap (p ∷ ps) = if closed_at (heap p) then open_ones heap ps else p ∷ open_ones heap ps

-- The heap in which the closed connections of the list are destroyed.
abbrev pub freed : List ℕ → Heap → Heap
freed ps heap q = if mem q ps && closed_at (heap q) then none else heap q

destroy_closed : (conn : Connection) → is_closed conn.status ≡ true → Connection.destroy conn ≡ []
unfolding Connection.destroy
destroy_closed conn h = ground arith

Listed-update :
    (heap : Heap) (next p : ℕ) (c : Option Connection) (ps : List ℕ)
    → mem p ps ≡ false
    → Listed heap next ps
    → Listed (update heap p c) next ps
Listed-update heap next p c [] h l = tt
Listed-update heap next p c (q ∷ ps) h (lt, a, d, l) =
    (lt, ground arith, d, Listed-update heap next p c ps (ground arith) l)

open_ones-update :
    (heap : Heap) (p : ℕ) (c : Option Connection) (ps : List ℕ)
    → mem p ps ≡ false
    → open_ones (update heap p c) ps ≡ open_ones heap ps
open_ones-update heap p c [] h = refl
open_ones-update heap p c (q ∷ ps) h = ground (arith, open_ones-update heap p c ps)

-- Of a list of distinct live connections the open ones are kept, in their order, the closed ones
-- are destroyed, nothing else in the heap changes, and no call is made: no descriptor is closed a
-- second time.
pub reap_lem :
    (ps : List ℕ) (heap : Heap) (next : ℕ)
    → Listed heap next ps
    → (heap' : Heap) × (reap ps heap ≡ some (open_ones heap ps, heap', []))
      × ((q : ℕ) → heap' q ≡ freed ps heap q)
unfolding reap
reap_lem [] heap next l = (heap, refl, λ q. refl)
reap_lem (p ∷ ps) heap next (lt, a, d, l) = elim (Option-cases (heap p)) [
  | inl n ↦ absurd (ground (arith, n))
  | inr (conn, e) ↦ elim (Bool-cases (is_closed conn.status)) [
    | inl shut ↦
        let (heap', f, g) =
          reap_lem ps (update heap p none) next (Listed-update heap next p none ps d l) in
        (
          heap',
          ground (arith, e, f, open_ones-update heap p none ps d, destroy_closed conn shut),
          λ q. ground (arith, e, g q),
        )
    | inr live ↦
        let (heap', f, g) = reap_lem ps heap next l in
        (heap', ground (arith, e, f), λ q. ground (arith, e, g q))
  ]
]
