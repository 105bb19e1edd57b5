-- ===== src/Logger/Tests.antt =====
-- The logger at a concrete time.
use study_code.Prelude.{◌≡◌, refl, true, Option, some, [], ◌∷◌}
use study_code.Prelude.Int.{pos, ◌+ℤ◌}
use study_code.Text.Decimal.{to_string}
use study_code.Text.{utf8}
use study_code.Logger.{
  fatal, Clock, formatted, get_current_time, new_file_strategy, LogStrategy, file, Sinks, Statement,
  log_all,
}
use study_code.Logger.Lines.{line_of, lines_of, Wrote, log_all-Wrote}
use study_code.Logger.Levels.{level_of, level_of-line_of}

abbrev noon : Clock
noon = record {
  tm_year = pos 126;
  tm_mon = pos 0;
  tm_mday = pos 5;
  tm_hour = pos 12;
  tm_min = pos 0;
  tm_sec = pos 7;
  tv_usec = pos 42;
}

get_current_time-noon : get_current_time noon ≡ utf8 "2026-1-5 12:0:7.42"
unfolding get_current_time formatted utf8 to_string ◌+ℤ◌
get_current_time-noon = refl

abbrev bound : Statement
unfolding utf8
bound = record {
  level = fatal;
  clock = noon;
  pid = pos 77;
  filename = utf8 "Main.cc";
  line = pos 9;
  infos = utf8 "fd:" ∷ utf8 "3" ∷ [];
}

level_of-line_of_example : level_of (line_of bound) ≡ some bound.level
level_of-line_of_example = level_of-line_of bound

abbrev to_file : Option LogStrategy
to_file = some (file (new_file_strategy true (utf8 "./log") (utf8 "log.txt")))

abbrev nothing_yet : Sinks
nothing_yet = record { cerr = []; files = λ path. [] }

log_all-Wrote_example :
    Wrote to_file
      (lines_of (bound ∷ bound ∷ []))
      nothing_yet
      (log_all (λ path. true) to_file (bound ∷ bound ∷ []) nothing_yet)
log_all-Wrote_example = log_all-Wrote (λ path. true) to_file (bound ∷ bound ∷ []) nothing_yet refl
