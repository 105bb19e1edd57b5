-- ===== src/Pipe/Tests.antt =====
-- Two lines that the reader gets as one piece and a bit.
use study_code.Prelude.{◌≡◌, refl, List, [], ◌∷◌, arith}
use study_code.Text.{Text}
use study_code.Pipe.{new_fifo, send_fifo, got, serve, type_lines}
use study_code.Pipe.Stream.{joined, printed, unlinks_in, Pieces, readings, printed-written, written}

abbrev typed : List Text
typed = (b'h' ∷ b'i' ∷ []) ∷ (b'o' ∷ b'k' ∷ []) ∷ []

abbrev pieces : List Text
pieces = (b'h' ∷ b'i' ∷ b'o' ∷ []) ∷ (b'k' ∷ []) ∷ []

pieces-Pieces : Pieces pieces
pieces-Pieces = (λ e. ground arith, omega arith, refl, (λ e. ground arith, omega arith, refl, tt))

same_bytes : joined pieces ≡ written (type_lines typed new_fifo)
unfolding type_lines send_fifo new_fifo
same_bytes = refl

printed-written_example :
    (printed (serve (readings pieces (got []) []) [] new_fifo) ≡ joined typed)
    × (unlinks_in (serve (readings pieces (got []) []) [] new_fifo) ≡ 1)
printed-written_example =
    printed-written typed pieces (got []) [] [] new_fifo new_fifo pieces-Pieces tt same_bytes
