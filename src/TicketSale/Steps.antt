-- ===== src/TicketSale/Steps.antt =====
-- thread2/test1.c: each statement keeps the books.
use study_code.Prelude.{
  ℕ, zero, suc, ◌+◌, ◌-◌, ◌≤◌, ◌<◌, ◌≡◌, refl, sym, ap, ◌∙◌, subst, true, some, List, [], ◌∷◌, ◌++◌,
  ltb, ltb→lt, arith, Option-cases, Bool-cases, some-eq_some, inl, inr,
}
use study_code.TicketSale.{
  Place, outside, testing, printing, taking, counting, leaving, giving_up, ended, Sale, update, at,
  lock, step_at, step, run,
}
use study_code.TicketSale.Sold.{
  first_tickets, tickets_in, total, IsId, Ids, inside, Holds, Held, Inv, moved, left, locked,
}

-- What the thread that has the mutex knows.
pub holding :
    (id : ℕ) (p : Place) (s : Sale)
    → Inv s
    → s.places id ≡ p
    → inside p ≡ true
    → (s.mutex ≡ some id) × Holds p s
holding id p s v e ins =
    let m = v.mutual_exclusion id (cc (e, ins)) in
    (m, subst (λ q. Holds q s) e (subst (λ mutex. Held mutex s) m v.held).1)

total-update : (id : ℕ) (arr : ℕ → ℕ) → IsId id → total (update arr id (arr id + 1)) ≡ 1 + total arr
total-update zero arr h = absurd (omega arith)
total-update (suc zero) arr h = omega arith
total-update (suc (suc zero)) arr h = omega arith
total-update (suc (suc (suc zero))) arr h = omega arith
total-update (suc (suc (suc (suc zero)))) arr h = omega arith
total-update (suc (suc (suc (suc (suc zero))))) arr h = omega arith
total-update (suc (suc (suc (suc (suc (suc n)))))) arr h = absurd (omega arith)

tickets_in-append :
    (xs : List (ℕ × ℕ)) (id t : ℕ) → tickets_in (xs ++ ((id, t) ∷ [])) ≡ tickets_in xs ++ (t ∷ [])
tickets_in-append [] id t = refl
tickets_in-append ((id', t') ∷ xs) id t = ap (λ l. t' ∷ l) (tickets_in-append xs id t)

first_tickets-step :
    (t : ℕ) → 0 < t → t ≤ 66 → first_tickets (66 - t) ++ (t ∷ []) ≡ first_tickets (66 + 1 - t)
first_tickets-step t pos le =
    let e : 66 + 1 - t ≡ suc (66 - t) = omega arith in
    let f : 66 - (66 - t) ≡ t = omega arith in
    rw e (ap (λ x. first_tickets (66 - t) ++ (x ∷ [])) (sym f))

step_at-Inv :
    (p : Place) (id : ℕ) (s s' : Sale)
    → IsId id
    → Inv s
    → s.places id ≡ p
    → step_at p id s ≡ some s'
    → Inv s'
step_at-Inv outside id s s' h v e f = elim (Option-cases s.mutex) [
  | inl n ↦ subst Inv (some-eq_some (sym (ap (λ m. lock m id s) n) ∙ f)) (locked id s h v n)
  | inr (other, m) ↦ absurd (cc (sym (ap (λ m. lock m id s) m) ∙ f))
]
step_at-Inv testing id s s' h v e f =
    let (m, books) = holding id testing s v e refl in
    elim (Bool-cases (ltb 0 s.ticket)) [
      | inl more ↦
          let f' : at id printing s ≡ s' = some-eq_some (cc (more, f)) in
          subst Inv f' (
            moved id printing s s v refl m m refl (omega arith)
              (h, (books, ltb→lt 0 s.ticket more)))
      | inr sold_out ↦
          let f' : at id giving_up s ≡ s' = some-eq_some (cc (sold_out, f)) in
          subst Inv f' (
            moved id giving_up s s v refl m m refl (omega arith)
              (h, (books, ground (arith, sold_out))))
    ]
step_at-Inv printing id s s' h v e f =
    let (m, (books, more)) = holding id printing s v e refl in
    let s1 : Sale = record s { lines = s.lines ++ ((id, s.ticket) ∷ []) } in
    let printed : tickets_in s1.lines ≡ first_tickets (66 + 1 - s.ticket) =
      tickets_in-append s.lines id s.ticket
      ∙ ap (λ l. l ++ (s.ticket ∷ [])) books.1
      ∙ first_tickets-step s.ticket more (omega (arith, books.0)) in
    subst Inv (some-eq_some f)
      (moved id taking s s1 v refl m m refl (omega arith) (h, ((books.0, printed), more)))
step_at-Inv taking id s s' h v e f =
    let (m, (books, more)) = holding id taking s v e refl in
    let s1 : Sale = record s { ticket = s.ticket - 1 } in
    let left_over : 66 + 1 - s.ticket ≡ 66 + 0 - (s.ticket - 1) = omega arith in
    subst Inv (some-eq_some f) (
      moved id counting s s1 v refl m m refl (omega arith)
        (h, (omega (arith, books.0, more), books.1 ∙ ap first_tickets left_over)))
step_at-Inv counting id s s' h v e f =
    let (m, (count, printed)) = holding id counting s v e refl in
    let s1 : Sale = record s { arr = update s.arr id (s.arr id + 1) } in
    subst Inv (some-eq_some f) (
      moved id leaving s s1 v refl m m refl (omega arith)
        (h, (omega (arith, count, total-update id s.arr h), printed)))
step_at-Inv leaving id s s' h v e f =
    let (m, books) = holding id leaving s v e refl in
    subst Inv (some-eq_some f)
      (left id outside s v m refl books (λ no. absurd (ground (arith, no))))
step_at-Inv giving_up id s s' h v e f =
    let (m, (books, sold_out)) = holding id giving_up s v e refl in
    subst Inv (some-eq_some f) (left id ended s v m refl books (λ yes'. sold_out))
step_at-Inv ended id s s' h v e f = absurd (cc f)

pub step-Inv : (id : ℕ) (s s' : Sale) → IsId id → Inv s → step id s ≡ some s' → Inv s'
unfolding step
step-Inv id s s' h v f = step_at-Inv (s.places id) id s s' h v refl f

pub run-Inv : (ids : List ℕ) (s s' : Sale) → Ids ids → Inv s → run ids s ≡ some s' → Inv s'
unfolding run
run-Inv [] s s' h v f = subst Inv (some-eq_some f) v
run-Inv (id ∷ ids) s s' (h, hs) v f = elim (Option-cases (step id s)) [
  | inl n ↦ absurd (ground (arith, n))
  | inr (next, n) ↦ run-Inv ids next s' hs (step-Inv id s next h v n) (ground (arith, f, n))
]
