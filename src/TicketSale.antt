-- ===== src/TicketSale.antt =====
-- thread2/test1.c: five threads that sell tickets under a mutex. Each statement between taking the mutex
-- and giving it up is a step of its own, and any thread may take the next one.
pub mod Sold
pub mod Steps
pub mod Measure
pub mod Ending
mod Tests
use study_code.Prelude.{
  ℕ, ◌+◌, ◌-◌, Bool, true, false, Option, none, some, List, [], ◌∷◌, ◌++◌, ltb, ◌==◌, if◌then◌else◌,
  ◌>>=◌,
}

-- Where a thread stands in `grap_ticket`: before the lock; before the test; and before the `printf`, the
-- `ticket--`, the `arr[id]++` and the unlock of a sale; before the other unlock; behind the loop.
pub data Place : Type 0 where
  outside testing printing taking counting leaving giving_up ended : Place

pub record Sale : Type 0 where
  pub mutex : Option ℕ
  pub ticket : ℕ
  pub arr : ℕ → ℕ
  pub places : ℕ → Place
  -- The lines printed: who sold which ticket.
  pub lines : List (ℕ × ℕ)

unfoldable pub begin : Sale
begin = record { mutex = none; ticket = 66; arr = λ i. 0; places = λ i. outside; lines = [] }

-- An array with one element set.
abbrev pub update {ℓ} : {A : Type ℓ} → (ℕ → A) → ℕ → A → ℕ → A
update f i a j = if i == j then a else f j

abbrev pub at : ℕ → Place → Sale → Sale
at id p s = record s { places = update s.places id p }

abbrev pub lock : Option ℕ → ℕ → Sale → Option Sale
lock none id s = some (at id testing (record s { mutex = some id }))
lock (some other) id s = none

-- The next statement of the thread at the given place; `none`: it cannot go on now.
abbrev pub step_at : Place → ℕ → Sale → Option Sale
step_at outside id s = lock s.mutex id s
step_at testing id s = some (if ltb 0 s.ticket then at id printing s else at id giving_up s)
step_at printing id s = some (at id taking (record s { lines = s.lines ++ ((id, s.ticket) ∷ []) }))
step_at taking id s = some (at id counting (record s { ticket = s.ticket - 1 }))
step_at counting id s = some (at id leaving (record s { arr = update s.arr id (s.arr id + 1) }))
step_at leaving id s = some (at id outside (record s { mutex = none }))
step_at giving_up id s = some (at id ended (record s { mutex = none }))
step_at ended id s = none

unfoldable pub step : ℕ → Sale → Option Sale
step id s = step_at (s.places id) id s

-- The given threads take the next statements, one after another.
unfoldable pub run : List ℕ → Sale → Option Sale
unfolding step
run [] s = some s
run (id ∷ ids) s = do next ← step id s; run ids next
