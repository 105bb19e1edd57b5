-- ===== src/Alternate/Turns.antt =====
-- thread1/Main.cc: what the two threads print.
use study_code.Prelude.{
  ℕ, zero, suc, ◌+◌, ◌≤◌, ◌<◌, ◌≡◌, refl, ap, subst, Bool, true, false, not, some, List, [], ◌∷◌,
  ◌++◌, arith, length, length-append, Option-cases, some-eq_some, inl, inr,
}
use native.Mathlib.Nat.{zero-add, suc-add}
use study_code.Alternate.{
  total_rounds, ready, waiting, ended, Printers, begin, Line, i_am_a, i_am_b, Act, a_locks, b_locks,
  a_wakes, b_wakes, act, run,
}

-- `n` lines by turns, from the given thread on.
abbrev pub by_turns : Bool → ℕ → List Line
by_turns is_a zero = []
by_turns true (suc n) = i_am_a ∷ by_turns false n
by_turns false (suc n) = i_am_b ∷ by_turns true n

-- Whose turn it is after `n` lines.
abbrev pub turn_after : Bool → ℕ → Bool
turn_after is_a zero = is_a
turn_after is_a (suc n) = turn_after (not is_a) n

by_turns-append :
    (is_a : Bool) (n m : ℕ)
    → by_turns is_a n ++ by_turns (turn_after is_a n) m ≡ by_turns is_a (n + m)
by_turns-append is_a zero m = rw zero-add refl
by_turns-append true (suc n) m = rw suc-add (ap (λ l. i_am_a ∷ l) (by_turns-append false n m))
by_turns-append false (suc n) m = rw suc-add (ap (λ l. i_am_b ∷ l) (by_turns-append true n m))

-- A thread that waits is waited for: it is the other's turn, and the other is about to lock. A thread
-- is behind its loop only after the last round.
pub record Inv (s : Printers) : Type 0 where
  pub rounds : s.print_round ≤ total_rounds
  pub a_waits :
      s.place_a ≡ waiting
      → (s.is_a_turn ≡ false) × (s.print_round < total_rounds) × (s.place_b ≡ ready)
  pub b_waits :
      s.place_b ≡ waiting
      → (s.is_a_turn ≡ true) × (s.print_round < total_rounds) × (s.place_a ≡ ready)
  pub a_ended : s.place_a ≡ ended → s.print_round ≡ total_rounds
  pub b_ended : s.place_b ≡ ended → s.print_round ≡ total_rounds

turn_after-add :
    (is_a : Bool) (n m : ℕ) → turn_after (turn_after is_a n) m ≡ turn_after is_a (n + m)
turn_after-add is_a zero m = rw zero-add refl
turn_after-add is_a (suc n) m = rw suc-add (turn_after-add (not is_a) n m)

pub begin-Inv : Inv begin
unfolding begin
begin-Inv = ground arith

pub act-Inv :
    (a : Act) (s : Printers) (r : Printers × List Line) → Inv s → act a s ≡ some r → Inv r.0
unfolding act
act-Inv a_locks s r v e = ground arith
act-Inv b_locks s r v e = ground arith
act-Inv a_wakes s r v e = ground arith
act-Inv b_wakes s r v e = ground arith

-- What one act prints.
abbrev Prints : Printers → Printers × List Line → Type 0
Prints s r =
    (r.1 ≡ by_turns s.is_a_turn (length r.1))
    × (r.0.is_a_turn ≡ turn_after s.is_a_turn (length r.1))
    × (r.0.print_round ≡ s.print_round + length r.1)

act-Prints : (a : Act) (s : Printers) (r : Printers × List Line) → act a s ≡ some r → Prints s r
unfolding act
act-Prints a_locks s r e = ground arith
act-Prints b_locks s r e = ground arith
act-Prints a_wakes s r e = ground arith
act-Prints b_wakes s r e = ground arith

run-Prints :
    (as' : List Act) (s : Printers) (r : Printers × List Line) → run as' s ≡ some r → Prints s r
unfolding run
run-Prints [] s r e = subst (Prints s) (some-eq_some e) (refl, refl, omega arith)
run-Prints (a ∷ as') s r e = elim (Option-cases (act a s)) [
  | inl n ↦ absurd (ground (arith, n))
  | inr (next, f) ↦ elim (Option-cases (run as' next.0)) [
    | inl n ↦ absurd (ground (arith, n, f))
    | inr (rest, g) ↦
        let (out, turn, count) = act-Prints a s next f in
        let (out', turn', count') = run-Prints as' next.0 rest g in
        let e' : some (rest.0, next.1 ++ rest.1) ≡ some r = ground (arith, e, f, g) in
        let len = length-append next.1 rest.1 in
        subst (Prints s) (some-eq_some e') (
          rw len
              (cc (by_turns-append s.is_a_turn (length next.1) (length rest.1), out, out', turn)),
          rw len (rw turn' (rw turn (turn_after-add s.is_a_turn (length next.1) (length rest.1)))),
          rw len (omega (arith, count, count')),
        )
  ]
]

pub run-Inv :
    (as' : List Act) (s : Printers) (r : Printers × List Line)
    → Inv s
    → run as' s ≡ some r
    → Inv r.0
unfolding run
run-Inv [] s r v e = subst (λ z. Inv z.0) (some-eq_some e) v
run-Inv (a ∷ as') s r v e = elim (Option-cases (act a s)) [
  | inl n ↦ absurd (ground (arith, n))
  | inr (next, f) ↦ elim (Option-cases (run as' next.0)) [
    | inl n ↦ absurd (ground (arith, n, f))
    | inr (rest, g) ↦
        let e' : some (rest.0, next.1 ++ rest.1) ≡ some r = ground (arith, e, f, g) in
        subst (λ z. Inv z.0) (some-eq_some e') (run-Inv as' next.0 rest (act-Inv a s next v f) g)
  ]
]

-- In any order of the two threads' acts, spurious wakings included, the lines printed come by
-- turns, the first from A, one for each round counted, and at most ten.
pub run-by_turns :
    (as' : List Act) (s : Printers) (out : List Line)
    → run as' begin ≡ some (s, out)
    → (out ≡ by_turns true s.print_round) × (s.print_round ≤ total_rounds)
unfolding begin
run-by_turns as' s out e =
    let (printed, turn, count) = run-Prints as' begin (s, out) e in
    let counted : length out ≡ s.print_round = omega (arith, count) in
    (
      subst (λ n. out ≡ by_turns true n) counted printed,
      (run-Inv as' begin (s, out) begin-Inv e).rounds,
    )
