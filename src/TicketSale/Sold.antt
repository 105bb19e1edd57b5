-- ===== src/TicketSale/Sold.antt =====
-- thread2/test1.c: no ticket is sold twice, and none is lost.
use study_code.Prelude.{
  ℕ, zero, suc, ◌+◌, ◌-◌, ◌≤◌, ◌<◌, ◌≡◌, refl, sym, ap, ◌∙◌, subst, Bool, true, false, Option, none,
  some, List, [], ◌∷◌, ◌++◌, ◌==◌, if◌then◌else◌, arith, Bool-cases, some-eq_some, inl, inr, ==_iff,
}
use study_code.TicketSale.{
  Place, outside, testing, printing, taking, counting, leaving, giving_up, ended, Sale, begin,
  update, at,
}

-- The first `k` tickets, from 66 down.
abbrev pub first_tickets : ℕ → List ℕ
first_tickets zero = []
first_tickets (suc k) = first_tickets k ++ ((66 - k) ∷ [])

abbrev pub tickets_in : List (ℕ × ℕ) → List ℕ
tickets_in [] = []
tickets_in ((id, t) ∷ lines) = t ∷ tickets_in lines

abbrev pub total : (ℕ → ℕ) → ℕ
total arr = arr 1 + arr 2 + arr 3 + arr 4 + arr 5

-- A thread of `ids`.
abbrev pub IsId : ℕ → Type 0
IsId id = (1 ≤ id) × (id ≤ 5)

abbrev pub Ids : List ℕ → Type 0
Ids [] = Unit
Ids (id ∷ ids) = IsId id × Ids ids

abbrev pub inside : Place → Bool
inside outside = false
inside ended = false
inside testing = true
inside printing = true
inside taking = true
inside counting = true
inside leaving = true
inside giving_up = true

-- All tickets that are gone are printed and counted, but for `p` and `c` of them.
abbrev pub Books : ℕ → ℕ → Sale → Type 0
Books p c s =
    (total s.arr + c + s.ticket ≡ 66) × (tickets_in s.lines ≡ first_tickets (66 + p - s.ticket))

abbrev pub Holds : Place → Sale → Type 0
Holds outside s = ⊥
Holds ended s = ⊥
Holds testing s = Books 0 0 s
Holds printing s = Books 0 0 s × (0 < s.ticket)
Holds taking s = Books 1 0 s × (0 < s.ticket)
Holds counting s = Books 0 1 s
Holds leaving s = Books 0 0 s
Holds giving_up s = Books 0 0 s × (s.ticket ≡ 0)

abbrev pub Held : Option ℕ → Sale → Type 0
Held none s = Books 0 0 s
Held (some id) s = IsId id × Holds (s.places id) s

pub record Inv (s : Sale) : Type 0 where
  pub mutual_exclusion : (id : ℕ) → inside (s.places id) ≡ true → s.mutex ≡ some id
  pub held : Held s.mutex s
  pub over : (id : ℕ) → s.places id ≡ ended → s.ticket ≡ 0

pub begin-Inv : Inv begin
unfolding begin
begin-Inv = record {
  mutual_exclusion = λ id e. ground (arith, e);
  held = (omega arith, refl);
  over = λ id e. ground (arith, e);
}

update_here {ℓ} : {A : Type ℓ} (f : ℕ → A) (i : ℕ) (a : A) → update f i a i ≡ a
update_here f i a = rw ((==_iff i i).1 refl) refl

update_elsewhere {ℓ} :
    {A : Type ℓ} (f : ℕ → A) (i j : ℕ) (a : A) → (i == j) ≡ false → update f i a j ≡ f j
update_elsewhere f i j a e = rw e refl

-- Where one thread has the mutex, no other is inside.
alone :
    (id : ℕ) (s : Sale)
    → Inv s
    → s.mutex ≡ some id
    → (j : ℕ) → (id == j) ≡ false
    → inside (s.places j) ≡ true
    → ⊥
alone id s v m j there e =
    let same : id ≡ j = some-eq_some (sym m ∙ v.mutual_exclusion j e) in
    absurd (cc ((==_iff id j).1 same, there))

-- Where no thread has the mutex, none is inside.
nobody : (s : Sale) → Inv s → s.mutex ≡ none → (j : ℕ) → inside (s.places j) ≡ true → ⊥
nobody s v m j e = absurd (cc (sym m ∙ v.mutual_exclusion j e))

-- The thread that has the mutex goes on to a place inside, and sells at most.
pub moved :
    (id : ℕ) (p : Place) (s s' : Sale)
    → Inv s
    → s'.places ≡ s.places
    → s.mutex ≡ some id
    → s'.mutex ≡ some id
    → inside p ≡ true
    → s'.ticket ≤ s.ticket
    → IsId id × Holds p (at id p s')
    → Inv (at id p s')
moved id p s s' v same m m' ins less holds = record {
  mutual_exclusion = λ j e. elim (Bool-cases (id == j)) [
    | inl here ↦ m' ∙ ap some ((==_iff id j).0 here)
    | inr there ↦
        m'
        ∙ sym m
        ∙ v.mutual_exclusion j (cc (e, same, ap (λ b. if b then p else s'.places j) there))
  ];
  held =
      subst (λ mutex. Held mutex (at id p s')) (sym m')
        (holds.0, subst (λ q. Holds q (at id p s')) (sym (update_here s'.places id p)) holds.1);
  over = λ j e. elim (Bool-cases (id == j)) [
    | inl here ↦
        let e' : p ≡ ended = cc (e, ap (λ b. if b then p else s'.places j) here) in
        absurd (ground (arith, e', ins))
    | inr there ↦
        let e' : s.places j ≡ ended = cc (e, same, ap (λ b. if b then p else s'.places j) there) in
        omega (arith, v.over j e', less)
  ];
}

-- The thread that has the mutex gives it up.
pub left :
    (id : ℕ) (p : Place) (s : Sale)
    → Inv s
    → s.mutex ≡ some id
    → inside p ≡ false
    → Books 0 0 s
    → (p ≡ ended → s.ticket ≡ 0)
    → Inv (at id p (record s { mutex = none }))
left id p s v m out books none_left = record {
  mutual_exclusion = λ j e. elim (Bool-cases (id == j)) [
    | inl here ↦ let at_j : update s.places id p j ≡ p = rw here refl in absurd (cc (e, at_j, out))
    | inr there ↦ absurd (alone id s v m j there (cc (e, update_elsewhere s.places id j p there)))
  ];
  held = books;
  over = λ j e. elim (Bool-cases (id == j)) [
    | inl here ↦ none_left (cc (e, ap (λ b. if b then p else s.places j) here))
    | inr there ↦ v.over j (cc (e, ap (λ b. if b then p else s.places j) there))
  ];
}

-- A thread takes the mutex.
pub locked :
    (id : ℕ) (s : Sale)
    → IsId id
    → Inv s
    → s.mutex ≡ none
    → Inv (at id testing (record s { mutex = some id }))
locked id s h v m = record {
  mutual_exclusion = λ j e. elim (Bool-cases (id == j)) [
    | inl here ↦ ap some ((==_iff id j).0 here)
    | inr there ↦ absurd (nobody s v m j (cc (e, update_elsewhere s.places id j testing there)))
  ];
  held = (
    h,
    subst (λ q. Holds q (at id testing (record s { mutex = some id })))
        (sym (update_here s.places id testing)) (subst (λ mutex. Held mutex s) m v.held),
  );
  over = λ j e. elim (Bool-cases (id == j)) [
    | inl here ↦
        let at_j : update s.places id testing j ≡ testing = rw here refl in
        absurd (ground (arith, e, at_j))
    | inr there ↦ v.over j (cc (e, ap (λ b. if b then testing else s.places j) there))
  ];
}
