-- ===== src/Logger.antt =====
-- thread5/Logger.hpp: messages, and the strategies that print them to the console or append them to a
-- file. The clock, the process id and what the file system answers are arguments; `Sinks` is what was
-- written.
pub mod Time
pub mod Target
pub mod Lines
pub mod Levels
mod Tests
use study_code.Prelude.{
  ℕ, Bool, true, false, not, ◌&&◌, Option, none, some, List, [], ◌∷◌, ◌++◌, ◌==◌, if◌then◌else◌,
  take,
}
use study_code.Prelude.Int.{ℤ, pos, ◌+ℤ◌}
use study_code.Text.{Text, utf8, text_eq}
use study_code.Text.Decimal.{to_string}

pub data LogLevel : Type 0 where
  info waring error fatal debug : LogLevel

unfoldable pub log_level_to_message : LogLevel → Text
log_level_to_message info = utf8 "Info"
log_level_to_message waring = utf8 "Waring"
log_level_to_message error = utf8 "Error"
log_level_to_message fatal = utf8 "Fatal"
log_level_to_message debug = utf8 "Debug"

-- `struct tm` and the microseconds of `gettimeofday`.
pub record Clock : Type 0 where
  pub tm_year : ℤ
  pub tm_mon : ℤ
  pub tm_mday : ℤ
  pub tm_hour : ℤ
  pub tm_min : ℤ
  pub tm_sec : ℤ
  pub tv_usec : ℤ

-- What the format of `GetCurrentTime` prints.
unfoldable pub formatted : Clock → Text
formatted c =
    to_string (c.tm_year +ℤ pos 1900)
    ++ (b'-'
        ∷ (to_string (c.tm_mon +ℤ pos 1)
            ++ (b'-'
                ∷ (to_string c.tm_mday
                    ++ (b' '
                        ∷ (to_string c.tm_hour
                            ++ (b':'
                                ∷ (to_string c.tm_min
                                    ++ (b':'
                                        ∷ (to_string c.tm_sec
                                            ++ (b'.' ∷ to_string c.tv_usec)))))))))))

-- `snprintf` into 128 bytes, the last of which is the NUL.
unfoldable pub get_current_time : Clock → Text
get_current_time c = take 127 (formatted c)

pub record FileLogstrategy : Type 0 where
  pub logpath : Text
  pub logfilename : Text

abbrev pub last_is : ℕ → Text → Bool
last_is d [] = false
last_is d (c ∷ []) = c == d
last_is d (c ∷ (c' ∷ s)) = last_is d (c' ∷ s)

-- The constructor, where `exists` is whether the directory is there. An error of
-- `create_directories` is caught and printed.
unfoldable pub new_file_strategy : Bool → Text → Text → FileLogstrategy
new_file_strategy exists logpath logfilename =
    if exists then record { logpath = logpath; logfilename = logfilename } else record {
      logpath =
          if last_is b'/' logpath
          then logpath
          else if text_eq logpath []
          then logpath
          else logpath ++ (b'/' ∷ []);
      logfilename = logfilename;
    }

pub data LogStrategy : Type 0 where
  console : LogStrategy
  file : (f : FileLogstrategy) → LogStrategy

-- The error stream, and the contents of the files.
pub record Sinks : Type 0 where
  pub cerr : Text
  pub files : Text → Text

unfoldable pub targetlog : FileLogstrategy → Text
targetlog f = f.logpath ++ (b'/' ∷ f.logfilename)

abbrev pub append_file : Text → Text → (Text → Text) → Text → Text
append_file path s files p = if text_eq p path then files p ++ s else files p

-- `ConsoleStrategy::SyncLog`
unfoldable pub console_sync_log : Text → Sinks → Sinks
console_sync_log message w = record w { cerr = w.cerr ++ (message ++ (b'\n' ∷ [])) }

-- `FileLogstrategy::SyncLog`; `is_open` tells which paths `std::ofstream` can open.
unfoldable pub file_sync_log : (Text → Bool) → FileLogstrategy → Text → Sinks → Sinks
file_sync_log is_open f message w =
    if not (is_open (targetlog f))
    then record w { cerr = w.cerr ++ (utf8 "open file" ++ (targetlog f ++ (b'\n' ∷ []))) }
    else record w { files = append_file (targetlog f) (message ++ (b'\n' ∷ [])) w.files }

-- `SyncLog` of a strategy.
unfoldable pub sync_log : (Text → Bool) → LogStrategy → Text → Sinks → Sinks
unfolding console_sync_log file_sync_log
sync_log is_open console message w = console_sync_log message w
sync_log is_open (file f) message w = file_sync_log is_open f message w

-- The statement `LOG(level) << info1 << info2 …`: its level, what the clock and `getpid` give, where
-- it stands, and what each operand prints into its stream.
pub record Statement : Type 0 where
  pub level : LogLevel
  pub clock : Clock
  pub pid : ℤ
  pub filename : Text
  pub line : ℤ
  pub infos : List Text

bracketed : Text → Text → Text
bracketed s rest = b'[' ∷ (s ++ (b']' ∷ rest))

-- The constructor of `LogMessage`, with `rest` behind it.
unfoldable pub log_message : Statement → Text → Text
unfolding bracketed
log_message s rest = bracketed (get_current_time s.clock) (
    bracketed (log_level_to_message s.level)
      (bracketed (to_string s.pid) (bracketed s.filename (bracketed (to_string s.line) rest))))

-- `operator<<`, once for each operand.
unfoldable pub put_infos : Text → List Text → Text
put_infos loginfo [] = loginfo
put_infos loginfo (i ∷ infos) = put_infos (loginfo ++ i) infos

-- The whole statement, its destructor at the end.
unfoldable pub log : (Text → Bool) → Option LogStrategy → Statement → Sinks → Sinks
unfolding put_infos
log is_open none s w = w
log is_open (some strategy) s w = sync_log is_open strategy (put_infos (log_message s []) s.infos) w

unfoldable pub log_all : (Text → Bool) → Option LogStrategy → List Statement → Sinks → Sinks
unfolding log
log_all is_open strategy [] w = w
log_all is_open strategy (s ∷ ss) w = log_all is_open strategy ss (log is_open strategy s w)
