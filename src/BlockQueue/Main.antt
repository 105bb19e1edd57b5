-- ===== src/BlockQueue/Main.antt =====
-- thread3/Main.cc: the numbers and the names that the consumers and the producers give themselves. The
-- mutex around the counter makes `Getnumber` one step.
pub mod Names
use study_code.Prelude.{ℕ, ◌+◌, Bool, List, [], ◌∷◌, ◌++◌, length, take, ltb, if◌then◌else◌}
use study_code.Prelude.Int.{pos}
use study_code.Text.{Text, utf8}
use study_code.Text.Decimal.{to_string}

-- The threads of `main`.
pub data Role : Type 0 where
  consumer productor : Role

-- `Getnumber`: the number, and the counter behind it.
abbrev pub get_number : ℕ → ℕ × ℕ
get_number num = (num, num + 1)

abbrev pub role_prefix : Role → Text
unfolding utf8
role_prefix consumer = utf8 "Consumer-"
role_prefix productor = utf8 "Productor-"

-- A thread's name, cut to the 15 characters that the system takes.
unfoldable pub thread_name : Role → ℕ → Text
thread_name role number =
    let name = role_prefix role ++ to_string (pos number) in
    if ltb 15 (length name) then take 15 name else name

-- The names, where threads of these roles come to `Getnumber` in this order.
unfoldable pub names : List Role → ℕ → List Text
unfolding thread_name
names [] num = []
names (role ∷ roles) num =
    let (number, later) = get_number num in thread_name role number ∷ names roles later

-- The threads of `main`.
abbrev pub main_roles : List Role
main_roles = consumer ∷ consumer ∷ productor ∷ productor ∷ productor ∷ []
