-- ===== src/TicketSale/Ending.antt =====
-- thread2/test1.c: the sale ends, with every ticket sold once.
use study_code.Prelude.{
  ◌&&◌, ◌==◌, Option, Bool, false, ==_iff, Bool-cases, if◌then◌else◌, ℕ, ◌+◌, ◌-◌, ◌≤◌, ◌≡◌, ◌≢◌,
  refl, sym, ap, ◌∙◌, subst, true, none, some, List, length, arith, Option-cases, inl, inr, ◌⊎◌,
}
use study_code.TicketSale.{
  Place, outside, testing, printing, taking, counting, leaving, giving_up, ended, Sale, begin, lock,
  step_at, step, run,
}
use study_code.TicketSale.Sold.{
  first_tickets, tickets_in, total, IsId, Ids, inside, Inv, Held, Holds, begin-Inv,
}
use study_code.TicketSale.Steps.{run-Inv}
use study_code.TicketSale.Measure.{weight, to_go, run-to_go}

-- At each place a thread can go on if nobody else has the mutex.
step_at-cases :
    (p : Place) (id : ℕ) (s : Sale)
    → step_at p id s ≡ none
    → (p ≡ ended) ⊎ ((p ≡ outside) × (s.mutex ≢ none))
step_at-cases outside id s e = inr (refl, λ n. absurd (cc (sym (ap (λ m. lock m id s) n) ∙ e)))
step_at-cases testing id s e = absurd (cc e)
step_at-cases printing id s e = absurd (cc e)
step_at-cases taking id s e = absurd (cc e)
step_at-cases counting id s e = absurd (cc e)
step_at-cases leaving id s e = absurd (cc e)
step_at-cases giving_up id s e = absurd (cc e)
step_at-cases ended id s e = inl refl

-- Nobody has the mutex when nobody can go on.
Holds-inside : (p : Place) (s : Sale) → Holds p s → inside p ≡ true
Holds-inside outside s h = absurd h
Holds-inside ended s h = absurd h
Holds-inside testing s h = refl
Holds-inside printing s h = refl
Holds-inside taking s h = refl
Holds-inside counting s h = refl
Holds-inside leaving s h = refl
Holds-inside giving_up s h = refl

stuck_free : (s : Sale) → Inv s → ((id : ℕ) → IsId id → step id s ≡ none) → s.mutex ≡ none
unfolding step
stuck_free s v stuck = elim (Option-cases s.mutex) [
  | inl n ↦ n
  | inr (id, m) ↦
      let (h, holds) = subst (λ mutex. Held mutex s) m v.held in
      let ins = Holds-inside (s.places id) s holds in
      elim (step_at-cases (s.places id) id s (stuck id h)) [
        | inl over ↦ absurd (cc (ap inside over, ins))
        | inr (out, busy) ↦ absurd (cc (ap inside out, ins))
      ]
]

stuck_ended :
    (s : Sale)
    → Inv s
    → ((id : ℕ) → IsId id → step id s ≡ none)
    → (id : ℕ) → IsId id
    → s.places id ≡ ended
unfolding step
stuck_ended s v stuck id h = elim (step_at-cases (s.places id) id s (stuck id h)) [
  | inl over ↦ over
  | inr (out, busy) ↦ absurd (busy (stuck_free s v stuck))
]

abbrev Printed : Sale → Type 0
Printed s = (k : ℕ) × (k ≤ 66) × (tickets_in s.lines ≡ first_tickets k)

Holds-Printed : (p : Place) (s : Sale) → Holds p s → Printed s
Holds-Printed outside s h = absurd h
Holds-Printed ended s h = absurd h
Holds-Printed testing s (count, printed) = (66 + 0 - s.ticket, omega arith, printed)
Holds-Printed printing s ((count, printed), more) = (66 + 0 - s.ticket, omega arith, printed)
Holds-Printed taking s ((count, printed), more) = (66 + 1 - s.ticket, omega arith, printed)
Holds-Printed counting s (count, printed) = (66 + 0 - s.ticket, omega arith, printed)
Holds-Printed leaving s (count, printed) = (66 + 0 - s.ticket, omega arith, printed)
Holds-Printed giving_up s ((count, printed), none_left) = (66 + 0 - s.ticket, omega arith, printed)

Inv-Printed : (s : Sale) → Inv s → Printed s
Inv-Printed s v = elim (Option-cases s.mutex) [
  | inl n ↦ Holds-Printed testing s (subst (λ mutex. Held mutex s) n v.held)
  | inr (id, m) ↦ Holds-Printed (s.places id) s (subst (λ mutex. Held mutex s) m v.held).1
]

to_go-begin : to_go begin ≡ 411
unfolding begin
to_go-begin = refl

-- One for the thread that has the mutex.
abbrev holder : Option ℕ → ℕ → ℕ
holder none i = 0
holder (some id) i = if id == i then 1 else 0

abbrev count : Bool → ℕ
count true = 1
count false = 0

-- How many of the five threads are between the lock and an unlock.
abbrev pub insiders : Sale → ℕ
insiders s = total (λ i. count (inside (s.places i)))

count-holder : (i : ℕ) (s : Sale) → Inv s → count (inside (s.places i)) ≤ holder s.mutex i
count-holder i s v = elim (Bool-cases (inside (s.places i))) [
  | inl ins ↦ rw (ins, v.mutual_exclusion i ins) (rw ((==_iff i i).1 refl) (omega arith))
  | inr out ↦ rw out (omega arith)
]

total-holder : (mutex : Option ℕ) → total (holder mutex) ≤ 1
total-holder none = omega arith
total-holder (some id) = ground arith

Inv-insiders : (s : Sale) → Inv s → insiders s ≤ 1
Inv-insiders s v = omega (
  arith,
  count-holder 1 s v,
  count-holder 2 s v,
  count-holder 3 s v,
  count-holder 4 s v,
  count-holder 5 s v,
  total-holder s.mutex,
)

-- In any order of the five threads' statements, at most one of them is between the lock and the
-- unlock, the tickets printed are the first ones from 66 down, each once and in order, and there
-- are at most 411 statements.
pub run-sold :
    (ids : List ℕ) (s : Sale)
    → Ids ids
    → run ids begin ≡ some s
    → (insiders s ≤ 1)
      × ((k : ℕ) × (k ≤ 66) × (tickets_in s.lines ≡ first_tickets k))
      × (length ids ≤ 411)
run-sold ids s h e =
    let v = run-Inv ids begin s h begin-Inv e in
    let steps = run-to_go ids begin s h begin-Inv e in
    (Inv-insiders s v, Inv-Printed s v, omega (arith, steps, to_go-begin))

to_go_ended : (s : Sale) → ((id : ℕ) → IsId id → s.places id ≡ ended) → s.ticket ≡ 0 → to_go s ≡ 0
to_go_ended s over t =
    let none_left = λ (id : ℕ) (h : IsId id). ap weight (over id h) in
    omega (
      arith,
      none_left 1 (omega arith),
      none_left 2 (omega arith),
      none_left 3 (omega arith),
      none_left 4 (omega arith),
      none_left 5 (omega arith),
      t,
    )

abbrev is_ended : Place → Bool
is_ended ended = true
is_ended outside = false
is_ended testing = false
is_ended printing = false
is_ended taking = false
is_ended counting = false
is_ended leaving = false
is_ended giving_up = false

-- Whether all five threads are behind their loops.
abbrev pub all_ended : Sale → Bool
all_ended s =
    is_ended (s.places 1)
    && is_ended (s.places 2)
    && is_ended (s.places 3)
    && is_ended (s.places 4)
    && is_ended (s.places 5)

all_ended_lem : (s : Sale) → ((id : ℕ) → IsId id → s.places id ≡ ended) → all_ended s ≡ true
all_ended_lem s over =
    rw
      (
        over 1 (omega arith),
        over 2 (omega arith),
        over 3 (omega arith),
        over 4 (omega arith),
        over 5 (omega arith),
      )
      refl

-- When no thread can take a further statement, whatever the order was, all five have ended, all 66
-- tickets are printed, each once, the counts of the threads make 66, no ticket is left, and there
-- were exactly 411 statements: the threads never block one another for good.
pub run-sold_out :
    (ids : List ℕ) (s : Sale)
    → Ids ids
    → run ids begin ≡ some s
    → ((id : ℕ) → IsId id → step id s ≡ none)
    → (all_ended s ≡ true)
      × (s.ticket ≡ 0)
      × (total s.arr ≡ 66)
      × (tickets_in s.lines ≡ first_tickets 66)
      × (length ids ≡ 411)
run-sold_out ids s h e stuck =
    let v = run-Inv ids begin s h begin-Inv e in
    let over = stuck_ended s v stuck in
    let t = v.over 1 (over 1 (omega arith)) in
    let (counted, printed) = subst (λ mutex. Held mutex s) (stuck_free s v stuck) v.held in
    let steps = run-to_go ids begin s h begin-Inv e in
    let all : 66 + 0 - s.ticket ≡ 66 = omega arith in
    (
      all_ended_lem s over,
      t,
      omega (arith, counted, t),
      printed ∙ ap first_tickets all,
      omega (arith, steps, to_go-begin, to_go_ended s over t),
    )
