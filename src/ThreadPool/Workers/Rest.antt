-- ===== src/ThreadPool/Workers/Rest.antt =====
-- ThreadPool.hpp: whatever the state is, the workers alone come to rest.
use study_code.Prelude.{
  ℕ, zero, suc, ◌+◌, ◌≤◌, ◌≡◌, refl, subst, ap, ◌∙◌, ◌⊎◌, inl, inr, Option, none, some, List, [],
  ◌∷◌, ◌++◌, map, get_elem?, length, arith,
}
use study_code.ThreadPool.{Effect}
use study_code.ThreadPool.Workers.{
  Place, ready, waiting, woken, left, Workers, goes, go_at, act, run,
}
use study_code.ThreadPool.Workers.Ends.{work_left, act-less, run-bounded}

-- A property of every number from `k` on.
from_first {ℓ} : (P : ℕ → Type ℓ) (k : ℕ) → P k → ((i : ℕ) → P (k + 1 + i)) → (i : ℕ) → P (k + i)
from_first P k h rest zero = let e : k ≡ k + 0 = omega arith in subst P e h
from_first P k h rest (suc i) = let e : k + 1 + i ≡ k + suc i = omega arith in subst P e (rest i)

module _ {ℓ} {T : Type ℓ} where
  -- No worker can take a step.
  abbrev pub AtRest : Workers T → Type ℓ
  AtRest w = (i : ℕ) → act (goes i) w ≡ none

  abbrev Goes : Option Place → ℕ → Workers T → Type ℓ
  Goes o i w = (go_at o i w ≡ none) ⊎ ((r : Workers T × List (Effect T)) × (go_at o i w ≡ some r))

  decide-Goes : (o : Option Place) (i : ℕ) (w : Workers T) → Goes o i w
  unfolding go_at
  decide-Goes (some ready) i w = inr (_, refl)
  decide-Goes (some woken) i w = inr (_, refl)
  decide-Goes (some waiting) i w = inl refl
  decide-Goes (some left) i w = inl refl
  decide-Goes none i w = inl refl

  -- The workers from `k` on, of whom `ps` are the places.
  search :
      (ps : List Place) (k : ℕ) (w : Workers T)
      → ((i : ℕ) → get_elem? w.places (k + i) ≡ get_elem? ps i)
      → ((i : ℕ) × (r : Workers T × List (Effect T)) × (act (goes i) w ≡ some r))
        ⊎ ((i : ℕ) → act (goes (k + i)) w ≡ none)
  unfolding act go_at
  search [] k w h = inr (λ i. ap (λ o. go_at o (k + i) w) (h i))
  search (p ∷ ps) k w h = elim (decide-Goes (get_elem? w.places k) k w) [
    | inr (r, e) ↦ inl (k, r, e)
    | inl stays ↦
        let shifted : (i : ℕ) → get_elem? w.places (k + 1 + i) ≡ get_elem? ps i = λ i.
          let e : k + 1 + i ≡ k + suc i = omega arith in
          ap (λ n. get_elem? w.places n) e ∙ h (suc i) in
        elim (search ps (k + 1) w shifted) [
          | inl found ↦ inl found
          | inr nobody ↦ inr (from_first (λ n. act (goes n) w ≡ none) k stays nobody)
        ]
  ]

  next_or_rest :
      (w : Workers T)
      → ((i : ℕ) × (r : Workers T × List (Effect T)) × (act (goes i) w ≡ some r)) ⊎ AtRest w
  next_or_rest w =
      elim (search w.places 0 w
        (λ i. let e : 0 + i ≡ i = omega arith in ap (λ n. get_elem? w.places n) e)) [
          | inl found ↦ inl found
          | inr nobody ↦ inr (λ i.
              let e : 0 + i ≡ i = omega arith in subst (λ n. act (goes n) w ≡ none) e (nobody i))
        ]

  rest_within :
      (n : ℕ) (w : Workers T)
      → work_left w ≤ n
      → (is : List ℕ) × (r : Workers T × List (Effect T)) × (run (map goes is) w ≡ some r)
        × AtRest r.0
  unfolding run
  rest_within zero w h = elim (next_or_rest w) [
    | inl (i, r, e) ↦ absurd (omega (arith, act-less i w r e, h))
    | inr rest ↦ ([], (w, []), refl, rest)
  ]
  rest_within (suc n) w h = elim (next_or_rest w) [
    | inr rest ↦ ([], (w, []), refl, rest)
    | inl (i, r, e) ↦
        let (is, q, f, rest) = rest_within n r.0 (omega (arith, act-less i w r e, h)) in
        (i ∷ is, (q.0, r.1 ++ q.1), rw e (rw f refl), rest)
  ]

  -- Whatever the state, the workers alone take at most two steps for each queued task and one for
  -- each of them that is awake, and there is an order of their steps behind which none of them can
  -- take another.
  pub run-rests :
      (w : Workers T)
      → ((is : List ℕ) (r : Workers T × List (Effect T))
          → run (map goes is) w ≡ some r
          → length is + work_left r.0 ≤ work_left w)
        × ((is : List ℕ) × (r : Workers T × List (Effect T)) × (run (map goes is) w ≡ some r)
            × AtRest r.0)
  run-rests w = (λ is r e. run-bounded is w r e, rest_within (work_left w) w (omega arith))
