-- ===== src/Http/Cookie/Tests.antt =====
-- Cookies of concrete requests.
use study_code.Prelude.{◌≡◌, refl, some, [], ◌∷◌}
use study_code.Text.{utf8, find, find_from, sub_size, substr, substr_from, getlines, text_eq}
use study_code.Text.Trim.{trim_front, trim_back}
use study_code.StringMap.{insert}
use study_code.Prelude.{List, arith}
use study_code.Text.{Text}
use study_code.Text.Search.{FirstAfter}
use study_code.Http.Cookie.{cookie_field, parse_cookies, store_pairs, store_pair}
use study_code.Http.Cookie.Parse.{with_cookie_line}
use study_code.Http.Cookie.Render.{render, store_all, IsPlain, parse_cookies-render}

parse_two :
    parse_cookies (utf8 "GET / HTTP/1.1\r\nCookie: SESSIONID=abc123; username=test\r\n\r\n")
    ≡ some ((utf8 "SESSIONID", utf8 "abc123") ∷ (utf8 "username", utf8 "test") ∷ [])
unfolding parse_cookies store_pairs store_pair utf8 find find_from sub_size substr substr_from
    getlines text_eq trim_front trim_back insert
parse_two = refl

parse_empty_header :
    parse_cookies (utf8 "Cookie:\r\nX: a=b; SESSIONID=q")
    ≡ some ((utf8 "\nX: a", utf8 "b") ∷ (utf8 "SESSIONID", utf8 "q") ∷ [])
unfolding parse_cookies store_pairs store_pair utf8 find find_from sub_size substr substr_from
    getlines text_eq trim_front trim_back insert
parse_empty_header = refl

field_first : FirstAfter cookie_field []
unfolding find
field_first = refl

abbrev two_cookies : List (Text × Text)
two_cookies = (b'a' ∷ [], b'1' ∷ []) ∷ (b'a' ∷ [], b'2' ∷ []) ∷ []

a_one-IsPlain : IsPlain (b'a' ∷ [], b'1' ∷ [])
a_one-IsPlain = record {
  name = refl;
  name_semicolon = refl;
  value_semicolon = refl;
  name_cr = refl;
  value_cr = refl;
  front = refl;
  back = refl;
}

a_two-IsPlain : IsPlain (b'a' ∷ [], b'2' ∷ [])
a_two-IsPlain = record {
  name = refl;
  name_semicolon = refl;
  value_semicolon = refl;
  name_cr = refl;
  value_cr = refl;
  front = refl;
  back = refl;
}

parse_cookies-render_example :
    parse_cookies (with_cookie_line [] (b' ' ∷ render two_cookies) [])
    ≡ some (store_all two_cookies [])
parse_cookies-render_example =
    parse_cookies-render [] [] (b'a' ∷ [], b'1' ∷ []) ((b'a' ∷ [], b'2' ∷ []) ∷ []) field_first
      (a_one-IsPlain, (a_two-IsPlain, tt)) (omega arith)
