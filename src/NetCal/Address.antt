-- ===== src/NetCal/Address.antt =====
-- InetAddr.hpp: an address's text and its comparison.
use study_code.Prelude.{ℕ, ◌≡◌, refl, sym, ap, ◌∙◌, true, [], ◌∷◌, ◌++◌, ==_iff, ◌↔◌, drop, arith}
use study_code.Prelude.Int.{pos}
use study_code.Text.{Text}
use study_code.Text.Search.{text_eq_iff}
use study_code.Text.Split.{lacks, append-injective_at}
use study_code.Text.Decimal.{
  to_string, to_string-lacks, decimal, read_decimal, read_decimal-decimal,
}
use study_code.NetCal.{InetAddr, inet_addr_eq, inet_addr_to_string}

same_ports :
    (n m : ℕ) (u : Text) → to_string (pos n) ++ (b']' ∷ u) ≡ to_string (pos m) ++ (b']' ∷ u) → n ≡ m
unfolding to_string
same_ports n m u e =
    let (same, rest) =
      append-injective_at b']' (decimal n) (decimal m) u u (to_string-lacks b']' (pos n) refl refl)
        (to_string-lacks b']' (pos m) refl refl) e in
    sym (read_decimal-decimal n) ∙ ap read_decimal same ∙ read_decimal-decimal m

to_string_same :
    (a b : InetAddr) → inet_addr_eq a b ≡ true → inet_addr_to_string a ≡ inet_addr_to_string b
unfolding inet_addr_eq inet_addr_to_string
to_string_same a b e =
    let ips : a.ip ≡ b.ip = (text_eq_iff a.ip b.ip).0 (ground (arith, e)) in
    let ports : a.port ≡ b.port = ground (arith, e) in cc (ips, ports)

same_to_string :
    (a b : InetAddr)
    → lacks b':' a.ip ≡ true
    → lacks b':' b.ip ≡ true
    → inet_addr_to_string a ≡ inet_addr_to_string b
    → inet_addr_eq a b ≡ true
unfolding inet_addr_eq inet_addr_to_string
same_to_string a b h k e =
    let (ips, rest) =
      append-injective_at b':' a.ip b.ip (to_string (pos a.port) ++ (b']' ∷ []))
        (to_string (pos b.port) ++ (b']' ∷ [])) h k (ap (drop 1) e) in
    rw ((text_eq_iff a.ip b.ip).1 ips, (==_iff a.port b.port).1 (same_ports a.port b.port [] rest))
      refl

-- Two addresses whose dotted texts have no colon are equal exactly when `ToString` gives the same
-- text.
pub inet_addr_eq-to_string :
    (a b : InetAddr)
    → lacks b':' a.ip ≡ true
    → lacks b':' b.ip ≡ true
    → (inet_addr_eq a b ≡ true) ↔ (inet_addr_to_string a ≡ inet_addr_to_string b)
inet_addr_eq-to_string a b h k = (to_string_same a b, same_to_string a b h k)
