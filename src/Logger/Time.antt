-- ===== src/Logger/Time.antt =====
-- Logger.hpp: the time of a message fits into its buffer.
use study_code.Prelude.{ℕ, ◌+◌, ◌≤◌, ◌<◌, ◌≡◌, ◌∷◌, ◌++◌, arith, length, length-append}
use study_code.Prelude.Int.{ℤ, pos, negsuc, ◌+ℤ◌}
use study_code.Text.{Text}
use study_code.Text.Search.{take_all}
use study_code.Text.Decimal.{to_string, length-to_string}
use study_code.Logger.{Clock, formatted, get_current_time}

-- The values of an `int`, and of a `long`.
abbrev pub InInt : ℤ → Type 0
InInt (pos n) = n < 2147483648
InInt (negsuc n) = n < 2147483648

abbrev pub InLong : ℤ → Type 0
InLong (pos n) = n < 9223372036854775808
InLong (negsuc n) = n < 9223372036854775808

-- Every number of the format is in its C type, the sums of the year and the month too.
pub record InRange (c : Clock) : Type 0 where
  pub year : InInt (c.tm_year +ℤ pos 1900)
  pub mon : InInt (c.tm_mon +ℤ pos 1)
  pub mday : InInt c.tm_mday
  pub hour : InInt c.tm_hour
  pub min : InInt c.tm_min
  pub sec : InInt c.tm_sec
  pub usec : InLong c.tv_usec

length-int : (z : ℤ) → InInt z → length (to_string z) ≤ 11
length-int (pos n) h = length-to_string 9 (pos n) (omega arith)
length-int (negsuc n) h = length-to_string 9 (negsuc n) (omega arith)

length-long : (z : ℤ) → InLong z → length (to_string z) ≤ 20
length-long (pos n) h = length-to_string 18 (pos n) (omega arith)
length-long (negsuc n) h = length-to_string 18 (negsuc n) (omega arith)

length-between :
    (m k : ℕ) (s : Text) (c : ℕ) (rest : Text)
    → length s ≤ m
    → length rest ≤ k
    → length (s ++ (c ∷ rest)) ≤ m + (1 + k)
length-between m k s c rest h g = omega (arith, length-append s (c ∷ rest))

abbrev behind : ℤ → ℕ → Text → Text
behind z c rest = to_string z ++ (c ∷ rest)

length-behind :
    (k : ℕ) (z : ℤ) (c : ℕ) (rest : Text)
    → InInt z
    → length rest ≤ k
    → length (behind z c rest) ≤ 12 + k
length-behind k z c rest h g =
    omega (arith, length-between 11 k (to_string z) c rest (length-int z h) g)

length-formatted : (c : Clock) → InRange c → length (formatted c) ≤ 127
unfolding formatted
length-formatted c r =
    let usec = to_string c.tv_usec in
    let usec_le = length-long c.tv_usec r.usec in
    let sec = behind c.tm_sec b'.' usec in
    let sec_le = length-behind 20 c.tm_sec b'.' usec r.sec usec_le in
    let min = behind c.tm_min b':' sec in
    let min_le = length-behind 32 c.tm_min b':' sec r.min sec_le in
    let hour = behind c.tm_hour b':' min in
    let hour_le = length-behind 44 c.tm_hour b':' min r.hour min_le in
    let mday = behind c.tm_mday b' ' hour in
    let mday_le = length-behind 56 c.tm_mday b' ' hour r.mday hour_le in
    let mon = behind (c.tm_mon +ℤ pos 1) b'-' mday in
    let mon_le = length-behind 68 (c.tm_mon +ℤ pos 1) b'-' mday r.mon mday_le in
    let year = behind (c.tm_year +ℤ pos 1900) b'-' mon in
    let year_le = length-behind 80 (c.tm_year +ℤ pos 1900) b'-' mon r.year mon_le in
    omega (arith, year_le)

pub get_current_time-formatted : (c : Clock) → InRange c → get_current_time c ≡ formatted c
unfolding get_current_time
get_current_time-formatted c r = take_all 127 (formatted c) (length-formatted c r)
