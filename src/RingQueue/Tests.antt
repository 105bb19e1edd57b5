-- ===== src/RingQueue/Tests.antt =====
-- The ring at concrete states.
use study_code.Prelude.{ℕ, ◌≤◌, ◌≡◌, ◌+◌, refl, some, List, [], ◌∷◌, ◌++◌, arith}
use study_code.RingQueue.{
  RingQueue, Step, outside, passed, moved, productor_waits, productor_writes, productor_posts,
  consumer_waits, consumer_reads, new_ring, set, run,
}
use study_code.RingQueue.Progress.{run_drains}
use study_code.RingQueue.Fifo.{Holds, put_all, contents, run-contents, new_ring-Holds, in_phase}

abbrev steps : List (Step ℕ)
steps =
    productor_waits
    ∷ productor_writes 7
    ∷ productor_posts
    ∷ consumer_waits
    ∷ productor_waits
    ∷ consumer_reads
    ∷ []

abbrev later : RingQueue ℕ
later = record {
  cap = 2;
  rq = set (λ i. 0) 0 7;
  consumer_step = 1;
  productor_step = 1;
  blank_sem = record { value = 0 };
  data_sem = record { value = 0 };
  productor = passed;
  consumer = moved;
}

run-ring : run steps (new_ring 2 0) ≡ some (later, 7 ∷ [])
unfolding run new_ring
run-ring = refl

run-contents_example :
    (n' : ℕ) × (n' ≤ 2)
    × Holds later n'
    × (contents (new_ring 2 0) 0 ++ put_all steps ≡ (7 ∷ []) ++ contents later n')
unfolding new_ring
run-contents_example =
    run-contents steps (new_ring 2 0) 0 later (7 ∷ []) (new_ring-Holds 2 0 (omega arith)) run-ring

run_drains_example :
    (ts : List (Step ℕ)) × (q' : RingQueue ℕ) × (read' : List ℕ) × (run ts later ≡ some (q', read'))
    × (put_all ts ≡ [])
    × (put_all steps ≡ (7 ∷ []) ++ read')
    × (q'.consumer ≡ outside)
    × (q'.data_sem.value ≡ 0)
    × (q'.blank_sem.value + in_phase passed q'.productor ≡ 2)
run_drains_example = run_drains 2 0 steps later (7 ∷ []) (omega arith) run-ring
