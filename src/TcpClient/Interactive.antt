-- ===== src/TcpClient/Interactive.antt =====
-- 11_21/send.cpp: a client that sends the words typed, each in a whole buffer, until it is answered.
use study_code.Prelude.{
  ◌>>=◌, ℕ, ◌-◌, ◌<◌, ◌≡◌, refl, Option, none, some, List, [], ◌∷◌, ◌++◌, length, take, replicate,
  ltb, lt→ltb, if◌then◌else◌, arith, length-append, length-take, length-replicate,
}
use study_code.Prelude.Int.{ℤ}
use study_code.Text.{Text, terminated}
use study_code.Sys.{Trace, recv, send, close}

-- What `recv` gives: bytes, of which the buffer takes 1023, or none at the end or for an error.
abbrev pub Answer : Type 0
Answer = Text

-- The cleared buffer of 1024 bytes behind `scanf`; `none`: the word and its NUL do not fit.
unfoldable pub scanned : Text → Option (List ℕ)
scanned word =
    if ltb (length word) 1024 then some (word ++ replicate (1024 - length word) 0) else none

-- What the client shows at its end, if it comes to one, and its calls.
abbrev pub Ending : Type 0
Ending = Option Text × Trace

-- The loop over the words typed and what is received behind each; where either ends it waits.
unfoldable pub rounds : ℤ → List (Text × Answer) → Option Ending
unfolding scanned
rounds token [] = some (none, [])
rounds token ((word, []) ∷ later) = do
  buffer ← scanned word
  rest ← rounds token later
  some (rest.0, send token (take 1023 buffer) ∷ recv token ∷ rest.1)
rounds token ((word, b ∷ bs) ∷ later) = do
  buffer ← scanned word
  some (
    some (terminated 1023 (b ∷ bs)),
    send token (take 1023 buffer) ∷ recv token ∷ close token ∷ [],
  )

abbrev pub AllFit : List (Text × Answer) → Type 0
AllFit [] = Unit
AllFit ((word, answer) ∷ later) = (length word < 1024) × AllFit later

abbrev pub first_answer : List (Text × Answer) → Option Text
first_answer [] = none
first_answer ((word, []) ∷ later) = first_answer later
first_answer ((word, b ∷ bs) ∷ later) = some (terminated 1023 (b ∷ bs))

-- What is sent fills the buffer up to its last byte.
abbrev pub WholeBuffers : Trace → Type 0
WholeBuffers [] = Unit
WholeBuffers (send fd bytes ∷ t) = (length bytes ≡ 1023) × WholeBuffers t
WholeBuffers (_ ∷ t) = WholeBuffers t

whole :
    (word : Text)
    → length word < 1024
    → length (take 1023 (word ++ replicate (1024 - length word) 0)) ≡ 1023
whole word h = omega (
  arith,
  length-take 1023 (word ++ replicate (1024 - length word) 0),
  length-append word (replicate (1024 - length word) 0),
  length-replicate {A = ℕ} (1024 - length word) 0,
  h,
)

-- Words that fit are sent in 1023 bytes each, and the client ends with the first answer.
pub rounds-first_answer :
    (token : ℤ) (rs : List (Text × Answer))
    → AllFit rs
    → (t : Trace) × (rounds token rs ≡ some (first_answer rs, t)) × WholeBuffers t
unfolding rounds scanned
rounds-first_answer token [] h = ([], refl, tt)
rounds-first_answer token ((word, []) ∷ later) (f, h) =
    let (t, e, w) = rounds-first_answer token later h in
    let sent = take 1023 (word ++ replicate (1024 - length word) 0) in
    (
      send token sent ∷ recv token ∷ t,
      rw (lt→ltb (length word) 1024 f) (rw e refl),
      (whole word f, w),
    )
rounds-first_answer token ((word, b ∷ bs) ∷ later) (f, h) =
    let sent = take 1023 (word ++ replicate (1024 - length word) 0) in
    (
      send token sent ∷ recv token ∷ close token ∷ [],
      rw (lt→ltb (length word) 1024 f) refl,
      (whole word f, tt),
    )
