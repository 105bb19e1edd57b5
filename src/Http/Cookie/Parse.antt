-- ===== src/Http/Cookie/Parse.antt =====
-- CookieUtil.cpp: what `parseCookies` returns for the forms of the Cookie line.
use study_code.Prelude.{
  ℕ, suc, ◌+◌, ◌-◌, ◌^◌, ◌≤◌, ◌<◌, ◌≡◌, refl, ap, ◌∙◌, inl, inr, Bool, true, some, List, [], ◌∷◌,
  ◌++◌, append_assoc, arith, Option-cases, length, take, drop, length-append,
}
use study_code.Text.{Text, find, find_from, sub_size, substr, substr_from, getlines}
use study_code.Text.Search.{
  find_bound, find_at, starts_with_split, FirstAfter, find-FirstAfter, drop-length, take-length,
  drop-add, length-drop_add, take_all,
}
use study_code.Text.Trim.{trim_front, trim_back}
use study_code.Text.Split.{lacks, find-lacks}
use study_code.StringMap.{insert}
use study_code.Http.Cookie.{
  Cookies, crlf, spaces, equals_sign, cookie_field, store_trimmed, store_pair, store_pairs,
  parse_line, parse_at, parse_cookies,
}

store_trimmed-total :
    (pair : Text) (cookies : Cookies) → (m : Cookies) × (store_trimmed pair cookies ≡ some m)
unfolding store_trimmed substr substr_from
store_trimmed-total [] cookies = (cookies, refl)
store_trimmed-total (c ∷ pair) cookies = elim (Option-cases (find equals_sign (c ∷ pair))) [
  | inl n ↦ (cookies, ground arith)
  | inr (i, e) ↦ (
    insert (take i (c ∷ pair)) (drop (i + 1) (c ∷ pair)) cookies,
    ground (arith, find_bound equals_sign (c ∷ pair) i e),
  )
]

store_pairs-total :
    (pieces : List Text) (cookies : Cookies) → (m : Cookies) × (store_pairs pieces cookies ≡ some m)
unfolding store_pairs store_pair
store_pairs-total [] cookies = (cookies, refl)
store_pairs-total (piece ∷ pieces) cookies =
    let (m, e) = store_trimmed-total (trim_back spaces (trim_front spaces piece)) cookies in
    let (m', e') = store_pairs-total pieces m in (m', rw e e')

past_field : (t : Text) (j : ℕ) → find crlf (cookie_field ++ t) ≡ some j → 7 ≤ j
unfolding find
past_field t j h = elim (Option-cases (find crlf t)) [
  | inl n ↦ ground arith
  | inr (i, e) ↦ ground arith
]

-- A line end found behind "Cookie:" stands behind all of it.
line_end-bound :
    (request : Text) (i j : ℕ)
    → find cookie_field request ≡ some i
    → find crlf (drop i request) ≡ some j
    → 7 ≤ j
line_end-bound request i j e f =
    past_field (drop 7 (drop i request)) j
      (rw (starts_with_split cookie_field (drop i request) (find_at cookie_field request i e)) at f)

parse_line-total :
    (request : Text) (i : ℕ)
    → find cookie_field request ≡ some i
    → (m : Cookies) × (parse_line request i (find_from crlf request i) ≡ some m)
unfolding parse_line substr find_from
parse_line-total request i e = elim (Option-cases (find crlf (drop i request))) [
  | inl n ↦ ([], ground arith)
  | inr (j, f) ↦
      let pieces = getlines b';' (take (sub_size (i + j) (i + 8)) (drop (i + 8) request)) in
      let (m, g) = store_pairs-total pieces [] in
      (
        m,
        ground (
          arith,
          g,
          line_end-bound request i j e f,
          find_bound cookie_field request i e,
          find_bound crlf (drop i request) j f,
          length-drop_add i request,
        ),
      )
]

-- The parser throws on no request: each `substr` starts within its text.
pub parse_cookies-total : (request : Text) → (m : Cookies) × (parse_cookies request ≡ some m)
unfolding parse_cookies
parse_cookies-total request = elim (Option-cases (find cookie_field request)) [
  | inl n ↦ ([], ground arith)
  | inr (i, e) ↦ let (m, g) = parse_line-total request i e in (m, ground (arith, g))
]

abbrev no_cr : Text → Bool
no_cr s = lacks b'\r' s

-- A request whose first "Cookie:" stands behind `pre`; the header's line is `line`.
abbrev pub with_cookie_line : Text → Text → Text → Text
with_cookie_line pre line post = pre ++ (cookie_field ++ (line ++ (crlf ++ post)))

find_field :
    (pre line post : Text)
    → FirstAfter cookie_field pre
    → find cookie_field (with_cookie_line pre line post) ≡ some (length pre)
find_field pre line post h =
    rw (← append_assoc pre cookie_field (line ++ (crlf ++ post)))
      (find-FirstAfter cookie_field pre (line ++ (crlf ++ post)) h)

find_line_end :
    (pre line post : Text)
    → no_cr line ≡ true
    → find_from crlf (with_cookie_line pre line post) (length pre)
      ≡ some (length pre + (7 + length line))
unfolding find_from
find_line_end pre line post h =
    rw (drop-length pre (cookie_field ++ (line ++ (crlf ++ post))))
      (ground (arith, find-lacks b'\r' (b'\n' ∷ []) (cookie_field ++ line) post h))

sub_size-eq : (a n : ℕ) → a + n < 2 ^ 64 → sub_size (a + n) a ≡ n
unfolding sub_size
sub_size-eq a n h = omega arith

sub_size_borrow : (a : ℕ) → a + 1 < 2 ^ 64 → sub_size a (a + 1) ≡ 2 ^ 64 - 1
unfolding sub_size
sub_size_borrow a h = omega arith

drop_field :
    (pre post : Text) (c : ℕ) (s : Text)
    → drop (length pre + 8) (pre ++ (cookie_field ++ ((c ∷ s) ++ post))) ≡ s ++ post
drop_field pre post c s =
    drop-add (length pre) 8 (pre ++ (cookie_field ++ ((c ∷ s) ++ post)))
    ∙ ap (drop 8) (drop-length pre (cookie_field ++ ((c ∷ s) ++ post)))

parse_at_line :
    (pre line post : Text)
    → FirstAfter cookie_field pre
    → no_cr line ≡ true
    → parse_cookies (with_cookie_line pre line post)
      ≡ parse_line
          (with_cookie_line pre line post)
          (length pre)
          (some (length pre + (7 + length line)))
unfolding parse_cookies
parse_at_line pre line post h k =
    rw (find_field pre line post h, parse_at) (rw (find_line_end pre line post k, parse_line) refl)

substr_line :
    (pre line post : Text) (c : ℕ)
    → length (with_cookie_line pre (c ∷ line) post) < 2 ^ 64
    → substr
        (with_cookie_line pre (c ∷ line) post)
        (length pre + 8)
        (sub_size (length pre + (7 + suc (length line))) (length pre + 8))
      ≡ some line
unfolding substr
substr_line pre line post c small =
    let fits = length-append pre (cookie_field ++ ((c ∷ line) ++ (crlf ++ post))) in
    let fits' = length-append line (crlf ++ post) in
    let e : length pre + (7 + suc (length line)) ≡ (length pre + 8) + length line = omega arith in
    rw e (
      rw (sub_size-eq (length pre + 8) (length line) (omega (arith, fits, fits'))) (
        rw (drop_field pre (crlf ++ post) c line)
          (rw (take-length line (crlf ++ post)) (ground (arith, fits, fits')))))

-- Of a request shorter than 2^64 bytes whose first "Cookie:" is followed by a byte and a text up
-- to the line end, neither with a carriage return, the pairs of that text are read; the byte is
-- dropped, whatever it is.
pub parse_cookies-line :
    (pre line post : Text) (c : ℕ)
    → FirstAfter cookie_field pre
    → no_cr (c ∷ line) ≡ true
    → length (with_cookie_line pre (c ∷ line) post) < 2 ^ 64
    → parse_cookies (with_cookie_line pre (c ∷ line) post) ≡ store_pairs (getlines b';' line) []
unfolding parse_line
parse_cookies-line pre line post c h k small =
    parse_at_line pre (c ∷ line) post h k ∙ rw (substr_line pre line post c small, parse_line) refl

substr_empty_line :
    (pre post : Text)
    → length (with_cookie_line pre [] post) < 2 ^ 64
    → substr
        (with_cookie_line pre [] post)
        (length pre + 8)
        (sub_size (length pre + (7 + 0)) (length pre + 8))
      ≡ some (b'\n' ∷ post)
unfolding substr
substr_empty_line pre post small =
    let fits = length-append pre (cookie_field ++ (crlf ++ post)) in
    let e : length pre + 8 ≡ (length pre + 7) + 1 = omega arith in
    let n : sub_size (length pre + 7) (length pre + 7 + 1) ≡ 2 ^ 64 - 1 =
      sub_size_borrow (length pre + 7) (omega (arith, fits)) in
    rw (drop_field pre (b'\n' ∷ post) b'\r' []) (
      rw e (
        rw n
          (rw (take_all (2 ^ 64 - 1) (b'\n' ∷ post) (omega (arith, fits))) (ground (arith, fits)))))

-- Where the line end follows the first "Cookie:" of a request shorter than 2^64 bytes at once, the
-- count of `substr` wraps round, and all that follows in the request from its line feed on is read
-- as cookies.
pub parse_cookies_empty_line :
    (pre post : Text)
    → FirstAfter cookie_field pre
    → length (with_cookie_line pre [] post) < 2 ^ 64
    → parse_cookies (with_cookie_line pre [] post) ≡ store_pairs (getlines b';' (b'\n' ∷ post)) []
unfolding parse_line
parse_cookies_empty_line pre post h small =
    parse_at_line pre [] post h refl ∙ rw (substr_empty_line pre post small, parse_line) refl
