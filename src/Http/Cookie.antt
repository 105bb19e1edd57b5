-- ===== src/Http/Cookie.antt =====
-- http-server-cpp/src/CookieUtil.cpp: reading the request's cookies and writing Set-Cookie headers.
-- `none` is the exception of a `substr` past the end.
pub mod Parse
pub mod Render
mod Tests
use study_code.Prelude.{
  ◌>>=◌, ℕ, zero, suc, ◌+◌, Bool, true, false, Option, none, some, List, [], ◌∷◌, ◌++◌,
  if◌then◌else◌,
}
use study_code.Prelude.Int.{ℤ, pos}
use study_code.Text.{Text, utf8, find, find_from, sub_size, substr, substr_from, getlines}
use study_code.Text.Trim.{trim_front, trim_back}
use study_code.Text.Decimal.{to_string}
use study_code.StringMap.{StringMap, insert}

abbrev pub Cookies : Type 0
Cookies = StringMap Text

abbrev pub crlf : Text
crlf = b'\r' ∷ b'\n' ∷ []

abbrev pub spaces : Text
spaces = b' ' ∷ []

abbrev equals_sign : Text
equals_sign = b'=' ∷ []

-- "Cookie:"
abbrev pub cookie_field : Text
cookie_field = b'C' ∷ b'o' ∷ b'o' ∷ b'k' ∷ b'i' ∷ b'e' ∷ b':' ∷ []

-- The text is split at the first `=`, if it has one.
store_at : Text → Option ℕ → Cookies → Option Cookies
store_at pair none cookies = some cookies
store_at pair (some eq_pos) cookies = do
  key ← substr pair 0 eq_pos
  value ← substr_from pair (eq_pos + 1)
  some (insert key value cookies)

store_trimmed : Text → Cookies → Option Cookies
unfolding store_at
store_trimmed [] cookies = some cookies
store_trimmed (c ∷ pair) cookies = store_at (c ∷ pair) (find equals_sign (c ∷ pair)) cookies

-- The body of the loop over the pieces between semicolons.
unfoldable pub store_pair : Text → Cookies → Option Cookies
unfolding store_trimmed
store_pair piece cookies = store_trimmed (trim_back spaces (trim_front spaces piece)) cookies

unfoldable pub store_pairs : List Text → Cookies → Option Cookies
store_pairs [] cookies = some cookies
store_pairs (piece ∷ pieces) cookies = do
  cookies' ← store_pair piece cookies
  store_pairs pieces cookies'

-- The part of `parseCookies` behind the search for the end of the line.
parse_line : Text → ℕ → Option ℕ → Option Cookies
parse_line request cookie_pos none = some []
parse_line request cookie_pos (some end_pos) = do
  cookie_str ← substr request (cookie_pos + 8) (sub_size end_pos (cookie_pos + 8))
  store_pairs (getlines b';' cookie_str) []

parse_at : Text → Option ℕ → Option Cookies
unfolding parse_line
parse_at request none = some []
parse_at request (some cookie_pos) =
    parse_line request cookie_pos (find_from crlf request cookie_pos)

unfoldable pub parse_cookies : Text → Option Cookies
unfolding parse_at
parse_cookies request = parse_at request (find cookie_field request)

unfoldable pub build_set_cookie : Text → Text → ℤ → Text
build_set_cookie key value max_age =
    utf8 "Set-Cookie:"
    ++ (key
        ++ (utf8 "="
            ++ (value
                ++ (utf8 "; Path=/; HttpOnly; Max-Age=" ++ (to_string max_age ++ utf8 "\r\n")))))

-- The default of `buildSetCookie`.
abbrev pub default_max_age : ℤ
default_max_age = pos 3600

unfoldable pub build_clear_cookie : Text → Text
build_clear_cookie key = utf8 "Set-Cookie:" ++ (key ++ utf8 "=; Path=/; HttpOnly; Max-Age=0\r\n")
