-- ===== src/Text.antt =====
-- `std::string` as the sources use it: a text is the list of its bytes, a position is a `size_t`,
-- and `std::string::npos` is `none`. A member that throws `std::out_of_range` returns an option.
pub mod Search
pub mod Trim
pub mod Split
pub mod Buffer
pub mod Decimal
use Prim.Native.Char.{code}
use Prim.Native.String.{String}
use mathlib.Core.Option
use study_code.Prelude.{
  ℕ, zero, suc, ◌+◌, ◌-◌, ◌/◌, ◌%◌, ◌^◌, Bool, true, false, ◌&&◌, ◌||◌, Option, none, some, List,
  [], ◌∷◌, ◌++◌, ltb, ◌==◌, if◌then◌else◌, length, take, drop,
}

abbrev pub Text : Type 0
Text = List ℕ

-- The bytes of a code point, and of a literal in a UTF-8 source file.
encode : ℕ → Text
encode c =
    if ltb c 128
    then c ∷ []
    else if ltb c 2048
    then (192 + c / 64) ∷ (128 + c % 64) ∷ []
    else if ltb c 65536
    then (224 + c / 4096) ∷ (128 + c / 64 % 64) ∷ (128 + c % 64) ∷ []
    else (240 + c / 262144) ∷ (128 + c / 4096 % 64) ∷ (128 + c / 64 % 64) ∷ (128 + c % 64) ∷ []

unfoldable pub utf8 : String → Text
unfolding encode
utf8 String.[] = []
utf8 (String.◌∷◌ c s) = encode (code c) ++ utf8 s

-- `==` on strings
unfoldable pub text_eq : Text → Text → Bool
text_eq [] [] = true
text_eq (a ∷ s) (b ∷ t) = a == b && text_eq s t
text_eq _ _ = false

unfoldable pub starts_with : Text → Text → Bool
starts_with [] s = true
starts_with (p ∷ pat) [] = false
starts_with (p ∷ pat) (c ∷ s) = p == c && starts_with pat s

-- `s.find(pat)`
unfoldable pub find : Text → Text → Option ℕ
unfolding starts_with
find pat [] = if starts_with pat [] then some 0 else none
find pat (c ∷ s) = if starts_with pat (c ∷ s) then some 0 else Option.map suc (find pat s)

-- `s.find(pat, from)`
unfoldable pub find_from : Text → Text → ℕ → Option ℕ
unfolding find
find_from pat s from = Option.map (λ i. from + i) (find pat (drop from s))

abbrev pub found : Option ℕ → Bool
found none = false
found (some i) = true

-- `a - b` on `size_t`
unfoldable pub sub_size : ℕ → ℕ → ℕ
sub_size a b = (a + 2 ^ 64 - b) % 2 ^ 64

-- `s.substr(from, count)`, which throws where `from` lies behind the end
unfoldable pub substr : Text → ℕ → ℕ → Option Text
substr s from count = if ltb (length s) from then none else some (take count (drop from s))

-- `s.substr(from)`
unfoldable pub substr_from : Text → ℕ → Option Text
substr_from s from = if ltb (length s) from then none else some (drop from s)

-- `s.erase(from, count)`, for `from` within the text
unfoldable pub erase : Text → ℕ → Option ℕ → Text
erase s from none = take from s
erase s from (some count) = take from s ++ drop (from + count) s

abbrev pub one_of : Text → ℕ → Bool
one_of [] c = false
one_of (d ∷ set) c = d == c || one_of set c

unfoldable pub find_first_not_of : Text → Text → Option ℕ
find_first_not_of set [] = none
find_first_not_of set (c ∷ s) =
    if one_of set c then Option.map suc (find_first_not_of set s) else some 0

abbrev last_not_of : Bool → Option ℕ → Option ℕ
last_not_of b (some i) = some (suc i)
last_not_of true none = none
last_not_of false none = some 0

unfoldable pub find_last_not_of : Text → Text → Option ℕ
find_last_not_of set [] = none
find_last_not_of set (c ∷ s) = last_not_of (one_of set c) (find_last_not_of set s)

-- `i + 1` on `size_t`, which takes `npos` to 0
abbrev pub next_pos : Option ℕ → ℕ
next_pos none = 0
next_pos (some i) = suc i

abbrev push_piece : ℕ → List Text → List Text
push_piece c [] = (c ∷ []) ∷ []
push_piece c (p ∷ ps) = (c ∷ p) ∷ ps

-- The pieces that `while (std::getline(ss, piece, delim))` yields.
unfoldable pub getlines : ℕ → Text → List Text
getlines delim [] = []
getlines delim (c ∷ s) =
    let rest = getlines delim s in if c == delim then [] ∷ rest else push_piece c rest

-- `std::string(buffer)`: the bytes up to the first NUL. A buffer with none is read past its end,
-- which is undefined.
unfoldable pub c_string : List ℕ → Option Text
c_string [] = none
c_string (c ∷ s) = if c == 0 then some [] else Option.map (◌∷◌ c) (c_string s)

or_empty : Option Text → Text
or_empty none = []
or_empty (some s) = s

-- A buffer that holds at most `size` of the bytes, with `buffer[n] = 0` behind them, as a C string.
unfoldable pub terminated : ℕ → Text → Text
unfolding or_empty c_string
terminated size s = or_empty (c_string (take size s ++ (0 ∷ [])))
