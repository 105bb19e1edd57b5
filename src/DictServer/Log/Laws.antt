-- ===== src/DictServer/Log/Laws.antt =====
-- Which lines the logger prints, and how long they are.
use study_code.Prelude.{
  Bool-cases, inl, inr, ltb, ℕ, ◌+◌, ◌≤◌, ◌<◌, ◌≡◌, ◌↔◌, none, some, ◌++◌, arith, length, take,
  length-append, length-take,
}
use study_code.Prelude.Int.{ℤ}
use study_code.Text.{Text}
use study_code.DictServer.Log.{Logger, LogLevel, rank, Tm, set_log_level, prefix, log}

-- After the level is set a message is dropped exactly if it is below that level.
pub log-set_log_level :
    (logger : Logger) (threshold level : LogLevel) (file : Text) (line : ℤ) (t : Tm)
    (formatted : Text)
    → (log (set_log_level threshold logger) level file line t formatted ≡ none)
      ↔ (rank level < rank threshold)
unfolding log set_log_level
log-set_log_level logger threshold level file line t formatted = ground arith

length-append_take : (cap : ℕ) (p s : Text) → length (p ++ take cap s) ≤ length p + cap
length-append_take cap p s = omega (arith, length-append p (take cap s), length-take cap s)

-- A printed line is as long as the prefix and at most 1023 bytes of the message.
pub log-length :
    (logger : Logger) (level : LogLevel) (file : Text) (line : ℤ) (t : Tm)
    (formatted printed : Text)
    → log logger level file line t formatted ≡ some printed
    → length printed ≤ length (prefix t level file line) + 1023
unfolding log
log-length logger level file line t formatted printed e =
    elim (Bool-cases (ltb (rank level) (rank logger.level))) [
      | inl low ↦ absurd (cc (rw low at e))
      | inr high ↦
          let same : prefix t level file line ++ take 1023 formatted ≡ printed =
            cc (rw high at e) in
          rw (← same) (length-append_take 1023 (prefix t level file line) formatted)
    ]
