-- ===== src/RingQueue/Window.antt =====
-- RingQueue.hpp: the elements from an index of the ring on.
use study_code.Prelude.{
  ℕ, zero, suc, ◌+◌, ◌-◌, ◌%◌, ◌<◌, ◌≡◌, refl, sym, ap, subst, false, List, [], ◌∷◌, ◌++◌, ltb,
  ◌==◌, arith, if◌then◌else◌, Bool-cases, inl, inr,
}
use native.Mathlib.Nat.{mod-eq_of_lt, mod_self}
use study_code.RingQueue.{set}

-- The index behind `i`.
abbrev pub next : ℕ → ℕ → ℕ
next cap i = if i + 1 == cap then 0 else i + 1

-- The index `k` places behind `c`.
abbrev pub place : ℕ → ℕ → ℕ → ℕ
place cap c k = if ltb (c + k) cap then c + k else c + k - cap

pub suc-mod_next : (cap i : ℕ) → i < cap → (i + 1) % cap ≡ next cap i
suc-mod_next cap i h = elim (Bool-cases (i + 1 == cap)) [
  | inl e ↦
      let top : i + 1 ≡ cap = ground arith in
      rw e (subst (λ n. n % cap ≡ 0) (sym top) (mod_self cap))
  | inr n ↦ rw n (mod-eq_of_lt (ground (arith, n)))
]

module _ {ℓ} {A : Type ℓ} where
  -- The elements from index `c` on.
  abbrev pub window : (ℕ → A) → ℕ → ℕ → ℕ → List A
  window rq cap c zero = []
  window rq cap c (suc n) = rq c ∷ window rq cap (next cap c) n

  pub window-set :
      (rq : ℕ → A) (cap c n d : ℕ) (x : A)
      → c < cap
      → n + d < cap
      → window (set rq (place cap c (n + d)) x) cap c n ≡ window rq cap c n
  window-set rq cap c zero d x h k = refl
  window-set rq cap c (suc n) d x h k =
      let same : place cap (next cap c) (n + d) ≡ place cap c (suc n + d) = ground arith in
      let rest = window-set rq cap (next cap c) n d x (ground arith) (omega arith) in
      let other : (place cap c (suc n + d) == c) ≡ false = ground arith in
      rw other (
        ap (λ w. rq c ∷ w)
          (subst (λ i. window (set rq i x) cap (next cap c) n ≡ window rq cap (next cap c) n) same
            rest))

  pub window_snoc :
      (rq : ℕ → A) (cap c n : ℕ)
      → c < cap
      → n < cap
      → window rq cap c (suc n) ≡ window rq cap c n ++ (rq (place cap c n) ∷ [])
  window_snoc rq cap c zero h k = ground arith
  window_snoc rq cap c (suc n) h k =
      let same : place cap (next cap c) n ≡ place cap c (suc n) = ground arith in
      ap (λ w. rq c ∷ w)
        (subst
          (λ i. window rq cap (next cap c) (suc n) ≡ window rq cap (next cap c) n ++ (rq i ∷ []))
          same (window_snoc rq cap (next cap c) n (ground arith) (omega arith)))
