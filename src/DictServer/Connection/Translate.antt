-- ===== src/DictServer/Connection/Translate.antt =====
-- Connection.cpp: what a client is told.
use study_code.Prelude.{
  ◌-◌, ◌<◌, ◌≡◌, refl, sym, ◌∙◌, true, false, some, [], ◌∷◌, ◌++◌, arith, length,
}
use study_code.Prelude.Int.{is_positive, minus_one}
use study_code.Text.{Text, c_string}
use study_code.Text.Trim.{trim_back-append, ends_outside, all_in}
use study_code.Text.Split.{lacks}
use study_code.Text.Buffer.{c_string-fill_eq}
use study_code.StringMap.{lookup}
use study_code.Sys.{recv, send, same_fd}
use study_code.DictServer.Connection.{
  Connection, connected, Io, buffer_size, dict, translation_or_notice, to_lower, blanks, translate,
  fill_buffer, read_data,
}

to_lower_idem : (s : Text) → to_lower (to_lower s) ≡ to_lower s
unfolding to_lower
to_lower_idem [] = refl
to_lower_idem (c ∷ s) = ground (arith, to_lower_idem s)

ends_outside-to_lower : (s : Text) → ends_outside blanks (to_lower s) ≡ ends_outside blanks s
unfolding to_lower
ends_outside-to_lower [] = refl
ends_outside-to_lower (c ∷ []) = ground arith
ends_outside-to_lower (c ∷ d ∷ s) = ends_outside-to_lower (d ∷ s)

translate_trimmed :
    (word trailing : Text)
    → all_in blanks trailing ≡ true
    → ends_outside blanks word ≡ true
    → translate (word ++ trailing) ≡ translation_or_notice (lookup (to_lower word) dict)
unfolding translate
translate_trimmed word trailing h k = rw (trim_back-append blanks word trailing h k) refl

-- The reply to a word that does not end in a blank, with blanks behind it, is the reply to the
-- word in lower case without them.
pub translate-to_lower :
    (word trailing : Text)
    → all_in blanks trailing ≡ true
    → ends_outside blanks word ≡ true
    → translate (word ++ trailing) ≡ translate (to_lower word ++ [])
translate-to_lower word trailing h k =
    translate_trimmed word trailing h k
    ∙ sym (
        translate_trimmed (to_lower word) [] refl (ends_outside-to_lower word ∙ k)
        ∙ rw (to_lower_idem word) refl)

-- A NUL-free word with trailing blanks that arrives on an open connection, fits the buffer and is
-- sent an answer without error is answered by the dictionary's entry for its lower-case form, or
-- by the notice that there is none, and a line end; whatever the word, also "exit", the connection
-- stays open.
pub read_data-translates :
    (io : Io) (conn : Connection) (word trailing : Text)
    → conn.status ≡ connected
    → is_positive io.recv_ret ≡ true
    → same_fd io.send_ret minus_one ≡ false
    → io.received ≡ word ++ trailing
    → lacks 0 (word ++ trailing) ≡ true
    → length (word ++ trailing) < buffer_size
    → all_in blanks trailing ≡ true
    → ends_outside blanks word ≡ true
    → (conn' : Connection) × (read_data io conn
        ≡ some (
          conn',
          recv conn.client_fd
              ∷ send conn.client_fd
                  (translation_or_notice (lookup (to_lower word) dict) ++ (b'\n' ∷ []))
              ∷ [],
        ))
      × (conn'.status ≡ connected)
unfolding read_data
read_data-translates io conn word trailing s got sent e nul fits h k =
    let text : c_string (fill_buffer (word ++ trailing)) ≡ some (word ++ trailing) =
      c_string-fill_eq (word ++ trailing) (buffer_size - length (word ++ trailing)) nul
        (omega arith) in
    (
      record conn { buffer = fill_buffer io.received },
      ground (arith, text, translate_trimmed word trailing h k),
      s,
    )
