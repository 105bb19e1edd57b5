-- ===== src/DictServer/Reactor/Steps/Serial.antt =====
-- A divided round, and the same round followed by the additions.
use study_code.Prelude.{
  ◌>>=◌, ℕ, ◌≡◌, ◌≢◌, ◌≤◌, refl, fun_ext, Bool, false, Option, none, some, List, [], ◌∷◌, length,
  arith, Option-cases, inl, inr, ==_iff,
}
use study_code.Sys.{Trace}
use study_code.DictServer.Connection.{Connection, read_data}
use study_code.DictServer.Reactor.{Heap, World, update, read_at}
use study_code.DictServer.Reactor.Steps.{Act, visits, adds, visits_in, run, visit_all, add_all}

-- What a step leaves when a connection was allocated before it, at a place that it does not look at.
abbrev pub with_new : ℕ → Connection → Option (Heap × Trace) → Option (Heap × Trace)
with_new p conn none = none
with_new p conn (some r) = some (update r.0 p (some conn), r.1)

update-swap :
    (heap : Heap) (p q : ℕ) (a b : Option Connection)
    → p ≢ q
    → update (update heap p a) q b ≡ update (update heap q b) p a
update-swap heap p q a b h = fun_ext λ r. ground (arith, h, ==_iff p r, ==_iff q r)

pub update-other :
    (heap : Heap) (p q : ℕ) (a : Option Connection) → p ≢ q → update heap p a q ≡ heap q
update-other heap p q a h = ground (arith, h, ==_iff p q)

pub update_self : (heap : Heap) (p : ℕ) (a : Option Connection) → update heap p a p ≡ a
update_self heap p a = ground (arith, ==_iff p p)

pub read_at-with_new :
    (world : World) (p q : ℕ) (conn : Connection) (heap : Heap)
    → p ≢ q
    → read_at world q (update heap p (some conn)) ≡ with_new p conn (read_at world q heap)
unfolding read_at
read_at-with_new world p q conn heap h =
    let same = update-other heap p q (some conn) h in
    elim (Option-cases (heap q)) [
      | inl missing ↦ rw same (rw missing refl)
      | inr (old, e) ↦ elim (Option-cases (read_data (world old.client_fd) old)) [
        | inl fails ↦ rw same (rw e (rw fails refl))
        | inr (read, f) ↦
            rw same (rw e (rw f (rw (update-swap heap p q (some conn) (some read.0) h) refl)))
      ]
    ]

-- A place that is none of the list's, and additions at such places only.
abbrev pub Away : ℕ → List ℕ → Type 0
Away p [] = Unit
Away p (q ∷ qs) = (p ≢ q) × Away p qs

abbrev pub Unused : List Act → List ℕ → Type 0
Unused [] qs = Unit
Unused (visits ∷ as') qs = Unused as' qs
Unused (adds p conn ∷ as') qs = Away p qs × Unused as' qs

module _ {C E : Type 0} (Apart : ℕ → C → E → Type 0) where
  -- No added connection has a place that an entry leads to.
  abbrev pub AllApart : ℕ → C → List E → Type 0
  AllApart p c [] = Unit
  AllApart p c (e ∷ es) = Apart p c e × AllApart p c es

  abbrev pub Fresh : List Act → C → List E → Type 0
  Fresh [] c es = Unit
  Fresh (visits ∷ as') c es = Fresh as' c es
  Fresh (adds p conn ∷ as') c es = AllApart p c es × Fresh as' c es

  Fresh-tail :
      (as' : List Act) (c : C) (e : E) (es : List E) → Fresh as' c (e ∷ es) → Fresh as' c es
  Fresh-tail [] c e es h = tt
  Fresh-tail (visits ∷ as') c e es h = Fresh-tail as' c e es h
  Fresh-tail (adds p conn ∷ as') c e es ((a, apart), h) = (apart, Fresh-tail as' c e es h)

module _ {C E L : Type 0} (one : C → E → Heap → Option (Heap × Trace))
    (add : ℕ → Heap → L → Option L) (moved : L → Bool) (Apart : ℕ → C → E → Type 0) where
  -- An addition takes the connection from its place only.
  abbrev pub Local : Type 0
  Local =
      (p : ℕ) (conn : Connection) (loop : L) (heap heap' : Heap)
      → add p (update heap p (some conn)) loop ≡ add p (update heap' p (some conn)) loop

  abbrev pub Framed : Type 0
  Framed =
      (p : ℕ) (conn : Connection) (c : C) (e : E) (heap : Heap)
      → Apart p c e
      → one c e (update heap p (some conn)) ≡ with_new p conn (one c e heap)

  -- The additions never move the array.
  abbrev pub Steady : List Act → L → Type 0
  Steady [] loop = Unit
  Steady (visits ∷ as') loop = Steady as' loop
  Steady (adds p conn ∷ as') loop =
      (heap : Heap) (grown : L)
      → add p (update heap p (some conn)) loop ≡ some grown
      → (moved grown ≡ false) × Steady as' grown

  -- The round first, the additions behind it.
  abbrev pub serial : List Act → C → List E → L → Heap → Option (L × Heap × Trace)
  serial as' c es loop heap = do
    seen ← visit_all one add moved c es heap
    added ← add_all one add moved as' loop seen.0
    some (added.0, added.1, seen.1)

  visit_all-with_new :
      (p : ℕ) (conn : Connection) (c : C) (es : List E) (heap : Heap)
      → Framed
      → AllApart Apart p c es
      → visit_all one add moved c es (update heap p (some conn))
        ≡ with_new p conn (visit_all one add moved c es heap)
  unfolding visit_all
  visit_all-with_new p conn c [] heap framed apart = refl
  visit_all-with_new p conn c (e ∷ es) heap framed (a, apart) =
      let here = framed p conn c e heap a in
      elim (Option-cases (one c e heap)) [
        | inl fails ↦ rw here (rw fails refl)
        | inr (seen, f) ↦
            let later = visit_all-with_new p conn c es seen.0 framed apart in
            elim (Option-cases (visit_all one add moved c es seen.0)) [
              | inl fails ↦ rw here (rw f (rw later (rw fails refl)))
              | inr (rest, g) ↦ rw here (rw f (rw later (rw g refl)))
            ]
      ]

  pub run-serial :
      (as' : List Act) (c : C) (es : List E) (loop : L) (heap : Heap)
      → Framed
      → Local
      → Fresh Apart as' c es
      → moved loop ≡ false
      → Steady as' loop
      → length es ≤ visits_in as'
      → run one add moved as' c es loop heap ≡ serial as' c es loop heap
  unfolding run visit_all add_all
  run-serial [] c [] loop heap framed local fresh still steady n = refl
  run-serial [] c (e ∷ es) loop heap framed local fresh still steady n = absurd (omega arith)
  run-serial (visits ∷ as') c [] loop heap framed local fresh still steady n =
      run-serial as' c [] loop heap framed local fresh still steady (omega arith)
  run-serial (visits ∷ as') c (e ∷ es) loop heap framed local fresh still steady n =
      elim (Option-cases (one c e heap)) [
        | inl fails ↦ rw still (rw fails refl)
        | inr (seen, f) ↦
            let ih =
              run-serial as' c es loop seen.0 framed local (Fresh-tail Apart as' c e es fresh) still
                steady (omega arith) in
            elim (Option-cases (visit_all one add moved c es seen.0)) [
              | inl fails ↦ rw still (rw f (rw ih (rw fails refl)))
              | inr (rest, g) ↦ elim (Option-cases (add_all one add moved as' loop rest.0)) [
                | inl fails ↦ rw still (rw f (rw ih (rw g (rw fails refl))))
                | inr (added, k) ↦ rw still (rw f (rw ih (rw g (rw k refl))))
              ]
            ]
      ]
  run-serial (adds p conn ∷ as') c es loop heap framed local (apart, fresh) still steady n =
      let there = visit_all-with_new p conn c es heap framed apart in
      elim (Option-cases (add p (update heap p (some conn)) loop)) [
        | inl fails ↦ elim (Option-cases (visit_all one add moved c es heap)) [
          | inl nothing ↦ rw fails (rw nothing refl)
          | inr (seen, f) ↦ rw fails (rw f (rw (local p conn loop seen.0 heap) (rw fails refl)))
        ]
        | inr (grown, g) ↦
            let (still', steady') = steady heap grown g in
            let ih =
              run-serial as' c es grown (update heap p (some conn)) framed local fresh still'
                steady' n in
            elim (Option-cases (visit_all one add moved c es heap)) [
              | inl nothing ↦ rw g (rw ih (rw there (rw nothing refl)))
              | inr (seen, f) ↦
                  rw g (rw ih (rw there (rw f (rw (local p conn loop seen.0 heap) (rw g refl)))))
            ]
      ]
