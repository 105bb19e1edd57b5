-- ===== src/TicketSale/Tests.antt =====
-- The sale under concrete schedules.
use study_code.Prelude.{
  ℕ, zero, suc, ◌≤◌, ◌≡◌, refl, true, Option, none, some, List, [], ◌∷◌, arith, length,
}
use study_code.TicketSale.{Sale, begin, step, run}
use study_code.TicketSale.Sold.{first_tickets, tickets_in, total, IsId, Ids}
use study_code.TicketSale.Ending.{insiders, all_ended, run-sold, run-sold_out}

abbrev or_begin : Option Sale → Sale
or_begin none = begin
or_begin (some s) = s

-- Thread 2 takes the mutex first, and thread 1 after a sale.
abbrev first_sale : List ℕ
first_sale = 2 ∷ 2 ∷ 2 ∷ 2 ∷ 2 ∷ 2 ∷ 1 ∷ 1 ∷ 1 ∷ []

abbrev after_sale : Sale
after_sale = or_begin (run first_sale begin)

run-first_sale : run first_sale begin ≡ some after_sale
unfolding run step begin
run-first_sale = refl

run-sold_example :
    (insiders after_sale ≤ 1)
    × ((k : ℕ) × (k ≤ 66) × (tickets_in after_sale.lines ≡ first_tickets k))
    × (9 ≤ 411)
run-sold_example = run-sold first_sale after_sale (omega arith) run-first_sale

-- Thread 1 sells everything, and the others find nothing.
abbrev again : ℕ → List ℕ → List ℕ
again zero ids = ids
again (suc n) ids = 1 ∷ 1 ∷ 1 ∷ 1 ∷ 1 ∷ 1 ∷ again n ids

abbrev last_steps : List ℕ
last_steps = 1 ∷ 1 ∷ 1 ∷ 2 ∷ 2 ∷ 2 ∷ 3 ∷ 3 ∷ 3 ∷ 4 ∷ 4 ∷ 4 ∷ 5 ∷ 5 ∷ 5 ∷ []

abbrev whole : List ℕ
whole = again 66 last_steps

abbrev at_the_end : Sale
at_the_end = or_begin (run whole begin)

run-whole : run whole begin ≡ some at_the_end
unfolding run step begin
run-whole = refl

all_stuck : (id : ℕ) → IsId id → step id at_the_end ≡ none
unfolding run step begin
all_stuck zero h = absurd (omega arith)
all_stuck (suc zero) h = refl
all_stuck (suc (suc zero)) h = refl
all_stuck (suc (suc (suc zero))) h = refl
all_stuck (suc (suc (suc (suc zero)))) h = refl
all_stuck (suc (suc (suc (suc (suc zero))))) h = refl
all_stuck (suc (suc (suc (suc (suc (suc n)))))) h = absurd (omega arith)

whole-Ids : Ids whole
whole-Ids = omega arith

run-sold_out_example :
    (all_ended at_the_end ≡ true)
    × (at_the_end.ticket ≡ 0)
    × (total at_the_end.arr ≡ 66)
    × (tickets_in at_the_end.lines ≡ first_tickets 66)
    × (length whole ≡ 411)
run-sold_out_example = run-sold_out whole at_the_end whole-Ids run-whole all_stuck
