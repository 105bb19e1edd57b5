-- ===== src/ThreadPool/Workers/Ends.antt =====
-- ThreadPool.hpp: left to themselves, the workers come to rest.
use study_code.Prelude.{
  ℕ, suc, ◌+◌, ◌*◌, ◌≤◌, ◌<◌, ◌≡◌, refl, subst, Option, none, some, List, [], ◌∷◌, ◌++◌, map,
  get_elem?, set, length, arith, Option-cases, Bool-cases, inl, inr, some-eq_some,
}
use study_code.ThreadPool.{ThreadPool, Effect, handler_task, handler_wakes, next_task}
use study_code.ThreadPool.Workers.{
  Place, ready, waiting, woken, left, place_after, Workers, goes, go_at, act, run,
}
use study_code.ThreadPool.Workers.Counts.{tally, awake, tally-set}

module _ {ℓ} {T : Type ℓ} where
  -- The steps that the queue and the workers that are awake allow for.
  abbrev pub work_left : Workers T → ℕ
  work_left w = length w.pool.tasks * 2 + tally awake w.places

  next_task-less :
      (i : ℕ) (p : Place) (tasks : List T) (pool : ThreadPool T) (places : List Place)
      → get_elem? places i ≡ some p
      → awake p ≡ 1
      → pool.tasks ≡ tasks
      → work_left (record {
        pool = (next_task tasks pool).0;
        places = set places i (place_after (next_task tasks pool).1);
      })
        < length tasks * 2 + tally awake places
  next_task-less i p [] pool places e a t = elim (Bool-cases pool.is_running) [
    | inl on ↦ rw on (rw t (omega (arith, tally-set awake places i p waiting e, a)))
    | inr off ↦ rw off (rw t (omega (arith, tally-set awake places i p left e, a)))
  ]
  next_task-less i p (task ∷ tasks) pool places e a t =
      omega (arith, tally-set awake places i p ready e, a)

  go_at-less :
      (o : Option Place) (i : ℕ) (w : Workers T) (r : Workers T × List (Effect T))
      → get_elem? w.places i ≡ o
      → go_at o i w ≡ some r
      → work_left r.0 < work_left w
  unfolding go_at handler_task handler_wakes
  go_at-less (some ready) i w r e f =
      subst (λ z. work_left z.0 < work_left w) (some-eq_some f)
        (next_task-less i ready w.pool.tasks w.pool w.places e refl refl)
  go_at-less (some woken) i w r e f =
      subst (λ z. work_left z.0 < work_left w) (some-eq_some f)
        (next_task-less i woken w.pool.tasks _ w.places e refl refl)
  go_at-less (some waiting) i w r e f = absurd (cc f)
  go_at-less (some left) i w r e f = absurd (cc f)
  go_at-less none i w r e f = absurd (cc f)

  pub act-less :
      (i : ℕ) (w : Workers T) (r : Workers T × List (Effect T))
      → act (goes i) w ≡ some r
      → work_left r.0 < work_left w
  unfolding act
  act-less i w r e = go_at-less (get_elem? w.places i) i w r refl e

  -- The workers alone take at most twice as many steps as tasks are queued and one more for each
  -- of them that is awake: they come to rest.
  pub run-bounded :
      (is : List ℕ) (w : Workers T) (r : Workers T × List (Effect T))
      → run (map goes is) w ≡ some r
      → length is + work_left r.0 ≤ work_left w
  unfolding run
  run-bounded [] w r e = subst (λ z. 0 + work_left z.0 ≤ work_left w) (some-eq_some e) (omega arith)
  run-bounded (i ∷ is) w r e = elim (Option-cases (act (goes i) w)) [
    | inl fails ↦ absurd (ground (arith, fails))
    | inr (next, f) ↦ elim (Option-cases (run (map goes is) next.0)) [
      | inl fails ↦ absurd (ground (arith, fails, f))
      | inr (rest, g) ↦
          let e' : some (rest.0, next.1 ++ rest.1) ≡ some r = ground (arith, e, f, g) in
          subst (λ z. suc (length is) + work_left z.0 ≤ work_left w) (some-eq_some e')
            (omega (arith, act-less i w next f, run-bounded is next.0 rest g))
    ]
  ]
