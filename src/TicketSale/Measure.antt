-- ===== src/TicketSale/Measure.antt =====
-- thread2/test1.c: how many statements are before the threads.
use study_code.Prelude.{
  ℕ, zero, suc, ◌+◌, ◌-◌, ◌*◌, ◌≡◌, refl, sym, ap, ◌∙◌, some, List, [], ◌∷◌, length, ltb, arith,
  Option-cases, Bool-cases, some-eq_some, inl, inr,
}
use study_code.TicketSale.{
  Place, outside, testing, printing, taking, counting, leaving, giving_up, ended, Sale, update, at,
  lock, step_at, step, run,
}
use study_code.TicketSale.Sold.{total, IsId, Ids, Inv}
use study_code.TicketSale.Steps.{holding, step-Inv}

-- How many statements a thread has before it to the end of the sale, six for each ticket aside.
abbrev pub weight : Place → ℕ
weight outside = 3
weight testing = 2
weight printing = 1
weight taking = 0
weight counting = 5
weight leaving = 4
weight giving_up = 1
weight ended = 0

abbrev pub to_go : Sale → ℕ
to_go s = 6 * s.ticket + total (λ i. weight (s.places i))

total-weight-update :
    (id : ℕ) (places : ℕ → Place) (p : Place)
    → IsId id
    → total (λ i. weight (update places id p i)) + weight (places id)
      ≡ total (λ i. weight (places i)) + weight p
total-weight-update zero places p h = absurd (omega arith)
total-weight-update (suc zero) places p h = omega arith
total-weight-update (suc (suc zero)) places p h = omega arith
total-weight-update (suc (suc (suc zero))) places p h = omega arith
total-weight-update (suc (suc (suc (suc zero)))) places p h = omega arith
total-weight-update (suc (suc (suc (suc (suc zero))))) places p h = omega arith
total-weight-update (suc (suc (suc (suc (suc (suc n)))))) places p h = absurd (omega arith)

-- A thread that goes from one place to another, with the tickets of `s'`.
at-to_go :
    (id t : ℕ) (p q : Place) (s s' : Sale)
    → IsId id
    → s.places id ≡ q
    → s'.places ≡ update s.places id p
    → s'.ticket ≡ t
    → 6 * t + weight p + 1 ≡ 6 * s.ticket + weight q
    → 1 + to_go s' ≡ to_go s
at-to_go id t p q s s' h e places tickets balance =
    let there : total (λ i. weight (s'.places i)) ≡ total (λ i. weight (update s.places id p i)) =
      ap (λ (f : ℕ → Place). total (λ i. weight (f i))) places in
    omega (arith, there, total-weight-update id s.places p h, ap weight e, tickets, balance)

step_at-to_go :
    (p : Place) (id : ℕ) (s s' : Sale)
    → IsId id
    → Inv s
    → s.places id ≡ p
    → step_at p id s ≡ some s'
    → 1 + to_go s' ≡ to_go s
step_at-to_go outside id s s' h v e f = elim (Option-cases s.mutex) [
  | inl n ↦
      let f' = some-eq_some (sym (ap (λ m. lock m id s) n) ∙ f) in
      at-to_go id s.ticket testing outside s s' h e (cc f') (cc f') (omega arith)
  | inr (other, m) ↦ absurd (cc (sym (ap (λ m. lock m id s) m) ∙ f))
]
step_at-to_go testing id s s' h v e f = elim (Bool-cases (ltb 0 s.ticket)) [
  | inl more ↦
      let f' : at id printing s ≡ s' = some-eq_some (cc (more, f)) in
      at-to_go id s.ticket printing testing s s' h e (cc f') (cc f') (omega arith)
  | inr sold_out ↦
      let f' : at id giving_up s ≡ s' = some-eq_some (cc (sold_out, f)) in
      at-to_go id s.ticket giving_up testing s s' h e (cc f') (cc f') (omega arith)
]
step_at-to_go printing id s s' h v e f =
    let f' = some-eq_some f in
    at-to_go id s.ticket taking printing s s' h e (cc f') (cc f') (omega arith)
step_at-to_go taking id s s' h v e f =
    let (m, (books, more)) = holding id taking s v e refl in
    let f' = some-eq_some f in
    at-to_go id (s.ticket - 1) counting taking s s' h e (cc f') (cc f') (omega (arith, more))
step_at-to_go counting id s s' h v e f =
    let f' = some-eq_some f in
    at-to_go id s.ticket leaving counting s s' h e (cc f') (cc f') (omega arith)
step_at-to_go leaving id s s' h v e f =
    let f' = some-eq_some f in
    at-to_go id s.ticket outside leaving s s' h e (cc f') (cc f') (omega arith)
step_at-to_go giving_up id s s' h v e f =
    let f' = some-eq_some f in
    at-to_go id s.ticket ended giving_up s s' h e (cc f') (cc f') (omega arith)
step_at-to_go ended id s s' h v e f = absurd (cc f)

pub run-to_go :
    (ids : List ℕ) (s s' : Sale)
    → Ids ids
    → Inv s
    → run ids s ≡ some s'
    → length ids + to_go s' ≡ to_go s
unfolding run step
run-to_go [] s s' h v f = omega (arith, ap to_go (some-eq_some f))
run-to_go (id ∷ ids) s s' (h, hs) v f = elim (Option-cases (step id s)) [
  | inl n ↦ absurd (ground (arith, n))
  | inr (next, n) ↦
      let rest = run-to_go ids next s' hs (step-Inv id s next h v n) (ground (arith, f, n)) in
      let here = step_at-to_go (s.places id) id s next h v refl n in omega (arith, rest, here)
]
