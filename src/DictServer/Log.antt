-- ===== src/DictServer/Log.antt =====
-- Project_TCPServer_Plus/src/log: the levels, the filter and the lines of the logger. The broken-down
-- local time and the text that `vsnprintf` makes of the arguments are arguments here.
pub mod Laws
use study_code.Prelude.{
  ℕ, zero, suc, ◌+◌, ◌-◌, Bool, true, false, Option, none, some, List, [], ◌∷◌, ◌++◌, ltb, length,
  take, replicate, if◌then◌else◌,
}
use study_code.Prelude.Int.{ℤ}
use study_code.Text.{Text, utf8}
use study_code.Text.Decimal.{decimal, to_string}

pub data LogLevel : Type 0 where
  debug info warn fatal : LogLevel

-- The values of the enumeration.
abbrev pub rank : LogLevel → ℕ
rank debug = 0
rank info = 1
rank warn = 2
rank fatal = 3

unfoldable pub level_to_string : LogLevel → Text
level_to_string debug = utf8 "DEBUG"
level_to_string info = utf8 "INFO"
level_to_string warn = utf8 "WARN"
level_to_string fatal = utf8 "FATAL"

pub record Logger : Type 0 where
  pub level : LogLevel

-- The constructor reads `LOG_LEVEL` of the configuration.
abbrev pub log_level : LogLevel
log_level = debug

abbrev pub get_instance : Logger
get_instance = record { level = log_level }

unfoldable pub set_log_level : LogLevel → Logger → Logger
set_log_level level logger = record { level = level }

-- `struct tm`, for dates that it counts upwards.
pub record Tm : Type 0 where
  pub tm_year : ℕ
  pub tm_mon : ℕ
  pub tm_mday : ℕ
  pub tm_hour : ℕ
  pub tm_min : ℕ
  pub tm_sec : ℕ

-- `%0wd`
padded : ℕ → ℕ → Text
padded w n = replicate (w - length (decimal n)) b'0' ++ decimal n

-- `snprintf` into 64 bytes
unfoldable pub get_current_time : Tm → Text
unfolding padded
get_current_time t = take 63 (
    padded 4 (t.tm_year + 1900)
    ++ (utf8 "-"
        ++ (padded 2 (t.tm_mon + 1)
            ++ (utf8 "-"
                ++ (padded 2 t.tm_mday
                    ++ (utf8 " "
                        ++ (padded 2 t.tm_hour
                            ++ (utf8 ":"
                                ++ (padded 2 t.tm_min ++ (utf8 ":" ++ padded 2 t.tm_sec))))))))))

unfoldable pub prefix : Tm → LogLevel → Text → ℤ → Text
prefix t level file line =
    utf8 "["
    ++ (get_current_time t
        ++ (utf8 "]["
            ++ (level_to_string level
                ++ (utf8 "][" ++ (file ++ (utf8 ":" ++ (to_string line ++ utf8 "] ")))))))

-- The line printed, if any; `formatted` is cut to the 1024 bytes of the buffer with its NUL.
unfoldable pub log : Logger → LogLevel → Text → ℤ → Tm → Text → Option Text
log logger level file line t formatted =
    if ltb (rank level) (rank logger.level)
    then none
    else some (prefix t level file line ++ take 1023 formatted)
