-- ===== src/Alternate/Ending.antt =====
-- thread1/Main.cc: how long the two threads can go on, and where they end.
use study_code.Prelude.{
  ℕ, ◌+◌, ◌-◌, ◌*◌, ◌≤◌, ◌≡◌, subst, true, none, some, List, [], ◌∷◌, arith, Option-cases, inl, inr,
}
use study_code.Alternate.{
  total_rounds, Place, ready, waiting, ended, Printers, begin, Line, Act, a_locks, b_locks, a_wakes,
  b_wakes, act, run,
}
use study_code.Alternate.Turns.{by_turns, Inv, begin-Inv, act-Inv, run-Inv, run-by_turns}

abbrev weight : Place → ℕ
weight ready = 2
weight waiting = 1
weight ended = 0

abbrev measure : Printers → ℕ
measure s = 4 * (total_rounds - s.print_round) + (weight s.place_a + weight s.place_b)

-- The acts of a thread that takes the mutex, and those in which one wakes for no reason.
abbrev pub locked : List Act → ℕ
locked [] = 0
locked (a_locks ∷ as') = 1 + locked as'
locked (b_locks ∷ as') = 1 + locked as'
locked (a_wakes ∷ as') = locked as'
locked (b_wakes ∷ as') = locked as'

abbrev pub woken : List Act → ℕ
woken [] = 0
woken (a_wakes ∷ as') = 1 + woken as'
woken (b_wakes ∷ as') = 1 + woken as'
woken (a_locks ∷ as') = woken as'
woken (b_locks ∷ as') = woken as'

act-measure :
    (a : Act) (s : Printers) (r : Printers × List Line)
    → Inv s
    → act a s ≡ some r
    → measure r.0 + locked (a ∷ []) ≤ measure s + woken (a ∷ [])
unfolding act
act-measure a_locks s r v e = ground arith
act-measure b_locks s r v e = ground arith
act-measure a_wakes s r v e = ground arith
act-measure b_wakes s r v e = ground arith

locked_cons : (a : Act) (as' : List Act) → locked (a ∷ as') ≡ locked (a ∷ []) + locked as'
locked_cons a as' = ground arith

woken_cons : (a : Act) (as' : List Act) → woken (a ∷ as') ≡ woken (a ∷ []) + woken as'
woken_cons a as' = ground arith

run-measure :
    (as' : List Act) (s : Printers) (r : Printers × List Line)
    → Inv s
    → run as' s ≡ some r
    → measure r.0 + locked as' ≤ measure s + woken as'
unfolding run
run-measure [] s r v e = ground arith
run-measure (a ∷ as') s r v e = elim (Option-cases (act a s)) [
  | inl n ↦ absurd (ground (arith, n))
  | inr (next, f) ↦ elim (Option-cases (run as' next.0)) [
    | inl n ↦ absurd (ground (arith, n, f))
    | inr (rest, g) ↦
        let one = act-measure a s next v f in
        let later = run-measure as' next.0 rest (act-Inv a s next v f) g in
        let same : rest.0 ≡ r.0 = ground (arith, e, f, g) in
        subst (λ z. measure z + locked (a ∷ as') ≤ measure s + woken (a ∷ as')) same
          (omega (arith, one, later, locked_cons a as', woken_cons a as'))
  ]
]

-- Over any run the threads take the mutex at most 44 times and once more for each spurious waking.
pub locked_bound :
    (as' : List Act) (s : Printers) (out : List Line)
    → run as' begin ≡ some (s, out)
    → locked as' ≤ 44 + woken as'
unfolding begin
locked_bound as' s out e = omega (arith, run-measure as' begin (s, out) begin-Inv e)

stuck_ended :
    (s : Printers)
    → Inv s
    → act a_locks s ≡ none
    → act b_locks s ≡ none
    → (s.place_a ≡ ended) × (s.place_b ≡ ended)
unfolding act
stuck_ended s v h k = ground arith

-- When neither thread can take the mutex, both have ended and ten lines were printed by turns: no
-- waking is lost.
pub run_stuck :
    (as' : List Act) (s : Printers) (out : List Line)
    → run as' begin ≡ some (s, out)
    → act a_locks s ≡ none
    → act b_locks s ≡ none
    → (s.place_a ≡ ended) × (s.place_b ≡ ended) × (out ≡ by_turns true 10)
run_stuck as' s out e h k =
    let v = run-Inv as' begin (s, out) begin-Inv e in
    let (a, b) = stuck_ended s v h k in
    let (printed, le) = run-by_turns as' s out e in
    (a, b, subst (λ n. out ≡ by_turns true n) (v.a_ended a) printed)
