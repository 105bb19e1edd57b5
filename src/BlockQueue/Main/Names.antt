-- ===== src/BlockQueue/Main/Names.antt =====
-- thread3/Main.cc: the names are different and fit.
use study_code.Prelude.{
  ℕ, zero, suc, ◌+◌, ◌^◌, ◌≤◌, ◌<◌, ◌≡◌, ◌≢◌, refl, sym, subst, ap, ◌∙◌, some, List, [], ◌∷◌, ◌++◌,
  length, length-append, drop, get_elem?, ltb, ltb→lt, some-eq_some, arith, Bool-cases, inl, inr,
}
use study_code.Text.{Text, utf8}
use study_code.Text.Search.{drop-length}
use study_code.Text.Decimal.{to_string, decimal, read_decimal, read_decimal-decimal, length-decimal}
use study_code.BlockQueue.Main.{Role, consumer, productor, role_prefix, thread_name, names}

length-role_prefix : (role : Role) → length (role_prefix role) ≤ 10
unfolding role_prefix utf8
length-role_prefix consumer = omega arith
length-role_prefix productor = omega arith

-- With at most five digits a name is not cut.
whole : (role : Role) (n : ℕ) → n < 10 ^ 5 → length (role_prefix role ++ decimal n) ≤ 15
whole role n h = omega (
  arith,
  length-append (role_prefix role) (decimal n),
  length-role_prefix role,
  length-decimal 4 n h,
)

thread_name-whole :
    (role : Role) (n : ℕ) → n < 10 ^ 5 → thread_name role n ≡ role_prefix role ++ decimal n
unfolding thread_name to_string
thread_name-whole role n h = elim (Bool-cases (ltb 15 (length (role_prefix role ++ decimal n)))) [
  | inl over ↦
      absurd
        (omega (arith, whole role n h, ltb→lt 15 (length (role_prefix role ++ decimal n)) over))
  | inr fits ↦ rw fits refl
]

behind-role_prefix :
    (role : Role) (n m : ℕ) → role_prefix role ++ decimal n ≡ role_prefix role ++ decimal m → n ≡ m
behind-role_prefix role n m e =
    let same : decimal n ≡ decimal m =
      sym (drop-length (role_prefix role) (decimal n))
      ∙ ap (drop (length (role_prefix role))) e
      ∙ drop-length (role_prefix role) (decimal m) in
    sym (read_decimal-decimal n) ∙ ap read_decimal same ∙ read_decimal-decimal m

role_prefix-injective :
    (r q : Role) (n m : ℕ) → role_prefix r ++ decimal n ≡ role_prefix q ++ decimal m → n ≡ m
unfolding role_prefix utf8
role_prefix-injective consumer consumer n m e = behind-role_prefix consumer n m e
role_prefix-injective productor productor n m e = behind-role_prefix productor n m e
role_prefix-injective consumer productor n m e = absurd (cc e)
role_prefix-injective productor consumer n m e = absurd (cc e)

names-at :
    (roles : List Role) (num i : ℕ) (name : Text)
    → get_elem? (names roles num) i ≡ some name
    → (role : Role) × (name ≡ thread_name role (num + i)) × (i < length roles)
unfolding names
names-at [] num i name e = absurd (cc e)
names-at (role ∷ roles) num zero name e =
    let at : num ≡ num + 0 = omega arith in
    (role, sym (some-eq_some e) ∙ ap (thread_name role) at, omega arith)
names-at (role ∷ roles) num (suc i) name e =
    let (r, f, l) = names-at roles (num + 1) i name e in
    let at : num + 1 + i ≡ num + suc i = omega arith in
    (r, f ∙ ap (thread_name r) at, omega (arith, l))

-- Among at most 100000 threads, in whatever order they come to `Getnumber` and whatever their
-- roles are, two of them have different names, of at most 15 characters.
pub names-distinct :
    (roles : List Role) (i j : ℕ) (name other : Text)
    → length roles ≤ 10 ^ 5
    → get_elem? (names roles 0) i ≡ some name
    → get_elem? (names roles 0) j ≡ some other
    → i ≢ j
    → (name ≢ other) × (length name ≤ 15)
names-distinct roles i j name other h e f d =
    let (r, n, l) = names-at roles 0 i name e in
    let (q, m, k) = names-at roles 0 j other f in
    let n' = n ∙ thread_name-whole r (0 + i) (omega (arith, h, l)) in
    let m' = m ∙ thread_name-whole q (0 + j) (omega (arith, h, k)) in
    (
      λ same. d (omega (arith, role_prefix-injective r q (0 + i) (0 + j) (sym n' ∙ same ∙ m'))),
      subst (λ s. length s ≤ 15) (sym n') (whole r (0 + i) (omega (arith, h, l))),
    )
