-- ===== src/Pipe/Stream.antt =====
-- 11_17: the reader prints what the writer typed, wherever the kernel divides it.
use study_code.Prelude.{ℕ, ◌+◌, ◌≤◌, ◌≡◌, ◌≢◌, refl, ap, ◌∙◌, true, List, [], ◌∷◌, ◌++◌, length}
use study_code.Text.{Text, terminated}
use study_code.Text.Split.{lacks}
use study_code.Text.Buffer.{terminated-whole}
use study_code.Pipe.{
  Fifo, Call, opens, mkfifo, exits, writes, reads, unlinks, prints, Reading, got, failed, recv_fifo,
  send_fifo, delete_fifo, serve, type_lines,
}

abbrev pub joined : List Text → Text
joined [] = []
joined (s ∷ ss) = s ++ joined ss

abbrev pub printed : List Call → Text
printed [] = []
printed (prints msg ∷ cs) = msg ++ printed cs
printed (opens m ∷ cs) = printed cs
printed (mkfifo ∷ cs) = printed cs
printed (exits status ∷ cs) = printed cs
printed (writes fd msg ∷ cs) = printed cs
printed (reads fd ∷ cs) = printed cs
printed (unlinks ∷ cs) = printed cs

abbrev pub written : List Call → Text
written [] = []
written (writes fd msg ∷ cs) = msg ++ written cs
written (opens m ∷ cs) = written cs
written (mkfifo ∷ cs) = written cs
written (exits status ∷ cs) = written cs
written (prints msg ∷ cs) = written cs
written (reads fd ∷ cs) = written cs
written (unlinks ∷ cs) = written cs

abbrev pub unlinks_in : List Call → ℕ
unlinks_in [] = 0
unlinks_in (unlinks ∷ cs) = 1 + unlinks_in cs
unlinks_in (prints msg ∷ cs) = unlinks_in cs
unlinks_in (opens m ∷ cs) = unlinks_in cs
unlinks_in (mkfifo ∷ cs) = unlinks_in cs
unlinks_in (exits status ∷ cs) = unlinks_in cs
unlinks_in (writes fd msg ∷ cs) = unlinks_in cs
unlinks_in (reads fd ∷ cs) = unlinks_in cs

-- Pieces that `read` can give: not empty, at most 127 bytes, and no NUL.
abbrev pub Pieces : List Text → Type 0
Pieces [] = Unit
Pieces (s ∷ ss) = (s ≢ []) × (length s ≤ 127) × (lacks 0 s ≡ true) × Pieces ss

-- Readings that give the pieces and then what `last` is.
abbrev pub readings : List Text → Reading → List Reading → List Reading
readings [] last later = last ∷ later
readings (s ∷ ss) last later = got s ∷ readings ss last later

-- A reading without bytes.
abbrev pub IsLast : Reading → Type 0
IsLast failed = Unit
IsLast (got []) = Unit
IsLast (got (b ∷ bs)) = ⊥

serve-printed :
    (pieces : List Text) (last : Reading) (later : List Reading) (msg : Text) (f : Fifo)
    → Pieces pieces
    → IsLast last
    → (printed (serve (readings pieces last later) msg f) ≡ joined pieces)
      × (unlinks_in (serve (readings pieces last later) msg f) ≡ 1)
unfolding serve recv_fifo delete_fifo
serve-printed [] failed later msg f h l = (refl, refl)
serve-printed [] (got []) later msg f h l = (refl, refl)
serve-printed [] (got (b ∷ bs)) later msg f h l = absurd l
serve-printed ([] ∷ ss) last later msg f (full, size, clean, h) l = absurd (full refl)
serve-printed ((b ∷ bs) ∷ ss) last later msg f (full, size, clean, h) l =
    let (out, deleted) = serve-printed ss last later (terminated 127 (b ∷ bs)) f h l in
    (rw out (ap (λ o. o ++ joined ss) (terminated-whole 127 (b ∷ bs) size clean)), deleted)

type_lines-written : (lines : List Text) (f : Fifo) → written (type_lines lines f) ≡ joined lines
unfolding type_lines send_fifo
type_lines-written [] f = refl
type_lines-written (line ∷ lines) f = ap (λ o. line ++ o) (type_lines-written lines f)

-- However the kernel divides what the writer typed into readings of at most 127 bytes, where
-- nothing is a NUL and no line's end is sent, the reader prints the same bytes in order, and when
-- a reading gives nothing or fails it removes the pipe once and is done.
pub printed-written :
    (lines pieces : List Text) (last : Reading) (later : List Reading) (msg : Text)
    (reader writer : Fifo)
    → Pieces pieces
    → IsLast last
    → joined pieces ≡ written (type_lines lines writer)
    → (printed (serve (readings pieces last later) msg reader) ≡ joined lines)
      × (unlinks_in (serve (readings pieces last later) msg reader) ≡ 1)
printed-written lines pieces last later msg reader writer h l e =
    let (out, deleted) = serve-printed pieces last later msg reader h l in
    (out ∙ e ∙ type_lines-written lines writer, deleted)
