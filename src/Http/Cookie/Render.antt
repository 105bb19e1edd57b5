-- ===== src/Http/Cookie/Render.antt =====
-- The Cookie line that a browser sends, and what `parseCookies` makes of it.
use study_code.Prelude.{
  ◌^◌, ◌<◌, ◌≡◌, ◌≢◌, refl, ap, ◌∙◌, true, some, List, [], ◌∷◌, ◌++◌, append_assoc, append-nil,
  arith, length, length-append,
}
use study_code.Text.{Text, substr, substr_from, getlines}
use study_code.Text.Search.{FirstAfter, take-length, drop-length, drop-add}
use study_code.Text.Trim.{trim_front-append, trim_back-append, starts_outside, ends_outside, all_in}
use study_code.Text.Split.{lacks, lacks-append, find-lacks, getlines-append, getlines_one}
use study_code.StringMap.{insert}
use study_code.Http.Cookie.{
  Cookies, spaces, cookie_field, store_trimmed, store_at, store_pair, store_pairs, parse_cookies,
}
use study_code.Http.Cookie.Parse.{with_cookie_line, parse_cookies-line}

abbrev pair_text : Text × Text → Text
pair_text (k, v) = k ++ (b'=' ∷ v)

-- The pairs, joined by "; ".
abbrev pub render : List (Text × Text) → Text
render [] = []
render (c ∷ []) = pair_text c
render (c ∷ d ∷ cs) = pair_text c ++ (b';' ∷ b' ' ∷ render (d ∷ cs))

-- A cookie that needs no quoting: no `=` in the name, no `;` and no line end in either part, no
-- space at either end.
pub record IsPlain (c : Text × Text) : Type 0 where
  pub name : lacks b'=' c.0 ≡ true
  pub name_semicolon : lacks b';' c.0 ≡ true
  pub value_semicolon : lacks b';' c.1 ≡ true
  pub name_cr : lacks b'\r' c.0 ≡ true
  pub value_cr : lacks b'\r' c.1 ≡ true
  pub front : starts_outside spaces (c.0 ++ (b'=' ∷ c.1)) ≡ true
  pub back : ends_outside spaces (c.0 ++ (b'=' ∷ c.1)) ≡ true

abbrev pub AllPlain : List (Text × Text) → Type 0
AllPlain [] = Unit
AllPlain (c ∷ cs) = IsPlain c × AllPlain cs

-- Later cookies of the same name replace earlier ones.
abbrev pub store_all : List (Text × Text) → Cookies → Cookies
store_all [] cookies = cookies
store_all ((k, v) ∷ cs) cookies = store_all cs (insert k v cookies)

store_at-length :
    (k v : Text) (cookies : Cookies)
    → store_at (k ++ (b'=' ∷ v)) (some (length k)) cookies ≡ some (insert k v cookies)
unfolding store_at substr substr_from
store_at-length k v cookies = rw (drop-add (length k) 1 (k ++ (b'=' ∷ v))) (
    rw (drop-length k (b'=' ∷ v))
      (rw (take-length k (b'=' ∷ v)) (ground (arith, length-append k (b'=' ∷ v)))))

store_trimmed_split :
    (k v : Text) (cookies : Cookies)
    → lacks b'=' k ≡ true
    → store_trimmed (k ++ (b'=' ∷ v)) cookies ≡ some (insert k v cookies)
unfolding store_trimmed
store_trimmed_split [] v cookies h = rw (find-lacks b'=' [] [] v h) (store_at-length [] v cookies)
store_trimmed_split (c ∷ k) v cookies h =
    rw (find-lacks b'=' [] (c ∷ k) v h) (store_at-length (c ∷ k) v cookies)

store_pair-IsPlain :
    (r : Text) (c : Text × Text) (cookies : Cookies)
    → all_in spaces r ≡ true
    → IsPlain c
    → store_pair (r ++ pair_text c) cookies ≡ some (insert c.0 c.1 cookies)
unfolding store_pair
store_pair-IsPlain r (k, v) cookies h p =
    rw (trim_front-append spaces r (pair_text (k, v)) h p.front) (
      rw (← append-nil (pair_text (k, v))) (
        rw (trim_back-append spaces (pair_text (k, v)) [] refl p.back)
          (store_trimmed_split k v cookies p.name)))

pair_text-lacks_semicolon : (c : Text × Text) → IsPlain c → lacks b';' (pair_text c) ≡ true
pair_text-lacks_semicolon (k, v) p = lacks-append b';' k (b'=' ∷ v) p.name_semicolon (ground arith)

pair_text-lacks_cr : (c : Text × Text) → IsPlain c → lacks b'\r' (pair_text c) ≡ true
pair_text-lacks_cr (k, v) p = lacks-append b'\r' k (b'=' ∷ v) p.name_cr (ground arith)

render-lacks_cr : (cs : List (Text × Text)) → AllPlain cs → lacks b'\r' (render cs) ≡ true
render-lacks_cr [] h = refl
render-lacks_cr (c ∷ []) (p, _) = pair_text-lacks_cr c p
render-lacks_cr (c ∷ d ∷ cs) (p, h) =
    lacks-append b'\r' (pair_text c) (b';' ∷ b' ' ∷ render (d ∷ cs)) (pair_text-lacks_cr c p)
      (ground (arith, render-lacks_cr (d ∷ cs) h))

append_pair-ne : (r : Text) (c : Text × Text) → r ++ pair_text c ≢ []
append_pair-ne r (k, v) e =
    absurd
      (omega (arith, ap length e, length-append r (k ++ (b'=' ∷ v)), length-append k (b'=' ∷ v)))

store_pairs-render :
    (r : Text) (c : Text × Text) (cs : List (Text × Text)) (cookies : Cookies)
    → all_in spaces r ≡ true
    → lacks b';' r ≡ true
    → AllPlain (c ∷ cs)
    → store_pairs (getlines b';' (r ++ render (c ∷ cs))) cookies ≡ some (store_all (c ∷ cs) cookies)
unfolding store_pairs
store_pairs-render r c [] cookies h k (p, _) =
    rw
      (getlines_one b';' (r ++ pair_text c)
        (lacks-append b';' r (pair_text c) k (pair_text-lacks_semicolon c p)) (append_pair-ne r c))
      (rw (store_pair-IsPlain r c cookies h p) refl)
store_pairs-render r c (d ∷ cs) cookies h k (p, ps) =
    rw (← append_assoc r (pair_text c) (b';' ∷ b' ' ∷ render (d ∷ cs))) (
      rw
        (getlines-append b';' (r ++ pair_text c) (b' ' ∷ render (d ∷ cs))
          (lacks-append b';' r (pair_text c) k (pair_text-lacks_semicolon c p)))
        (rw (store_pair-IsPlain r c cookies h p)
          (store_pairs-render (b' ' ∷ []) d cs (insert c.0 c.1 cookies) refl refl ps)))

-- The round trip: of a request shorter than 2^64 bytes whose first "Cookie:" begins a browser's
-- line of plain cookies, a blank before the first and `; ` between them, the parser returns these
-- cookies, of two that share a name the later.
pub parse_cookies-render :
    (pre post : Text) (c : Text × Text) (cs : List (Text × Text))
    → FirstAfter cookie_field pre
    → AllPlain (c ∷ cs)
    → length (with_cookie_line pre (b' ' ∷ render (c ∷ cs)) post) < 2 ^ 64
    → parse_cookies (with_cookie_line pre (b' ' ∷ render (c ∷ cs)) post)
      ≡ some (store_all (c ∷ cs) [])
parse_cookies-render pre post c cs h ps small =
    parse_cookies-line pre (render (c ∷ cs)) post b' ' h
      (ground (arith, render-lacks_cr (c ∷ cs) ps)) small
    ∙ store_pairs-render [] c cs [] refl refl ps
