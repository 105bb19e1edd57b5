-- ===== src/Pipe.antt =====
-- 11_17/Pipe.hpp, server.cpp and client.cpp: a named pipe, a reader that prints until the writers are gone,
-- and a writer of lines. What the calls return are arguments.
pub mod Stream
mod Tests
use study_code.Prelude.{
  ℕ, Bool, true, false, not, Option, none, some, List, [], ◌∷◌, ◌++◌, if◌then◌else◌, ◌>>=◌, length,
  take,
}
use study_code.Prelude.Int.{ℤ, pos, minus_one, is_negative, is_positive}
use study_code.Text.{Text, terminated}

-- `_fd`; the path and the mode do not change.
pub record Fifo : Type 0 where
  pub fd : ℤ

pub data Mode : Type 0 where
  for_read for_write other_mode : Mode

-- The calls on the pipe, and the reader's lines: `prints msg` is "Clinet Say:", the message and a line end.
pub data Call : Type 0 where
  opens : (m : Mode) → Call
  mkfifo : Call
  exits : (status : ℕ) → Call
  writes : (fd : ℤ) (msg : Text) → Call
  reads : (fd : ℤ) → Call
  unlinks : Call
  prints : (msg : Text) → Call

unfoldable pub new_fifo : Fifo
new_fifo = record { fd = minus_one }

-- `IsExists`, whose descriptor is not kept.
abbrev pub is_exists : ℤ → Bool
is_exists open_ret = not (is_negative open_ret)

-- `Build`; `none`: the process exits.
unfoldable pub build : ℤ → ℤ → Fifo → Option Fifo × List Call
build open_ret mkfifo_ret f =
    if is_exists open_ret
    then (some f, opens for_read ∷ [])
    else if is_negative mkfifo_ret
    then (none, opens for_read ∷ mkfifo ∷ exits 1 ∷ [])
    else (some f, opens for_read ∷ mkfifo ∷ [])

-- The descriptor behind the choice of `Open`, which opens nothing in another mode.
abbrev pub fd_after : Mode → ℤ → Fifo → ℤ
fd_after for_read open_ret f = open_ret
fd_after for_write open_ret f = open_ret
fd_after other_mode open_ret f = f.fd

abbrev pub tries : Mode → List Call
tries for_read = opens for_read ∷ []
tries for_write = opens for_write ∷ []
tries other_mode = []

-- `Open`
unfoldable pub open_fifo : Mode → ℤ → Fifo → Option Fifo × List Call
open_fifo m open_ret f =
    let fd = fd_after m open_ret f in
    if is_negative fd
    then (none, tries m ++ (exits 2 ∷ []))
    else (some (record f { fd = fd }), tries m)

-- `Send`
unfoldable pub send_fifo : Text → Fifo → List Call
send_fifo msg f = writes f.fd msg ∷ []

-- What `read` gives: bytes, of which the buffer takes 127, the end when no writer is left, or an error.
pub data Reading : Type 0 where
  got : (s : Text) → Reading
  failed : Reading

-- `Recv`: what it returns, the string behind its pointer, and its call.
unfoldable pub recv_fifo : Reading → Text → Fifo → ℤ × Text × List Call
recv_fifo failed msgout f = (minus_one, msgout, reads f.fd ∷ [])
recv_fifo (got []) msgout f = (pos 0, msgout, reads f.fd ∷ [])
recv_fifo (got (b ∷ bs)) msgout f =
    (pos (length (take 127 (b ∷ bs))), terminated 127 (b ∷ bs), reads f.fd ∷ [])

-- `Delete`
unfoldable pub delete_fifo : Fifo → List Call
delete_fifo f = unlinks ∷ []

-- The loop of the reader and what follows it. Where no reading is left it waits.
unfoldable pub serve : List Reading → Text → Fifo → List Call
unfolding recv_fifo delete_fifo
serve [] msg f = []
serve (r ∷ rs) msg f =
    let (n, msg', calls) = recv_fifo r msg f in
    let later = serve rs msg' f in
    calls ++ (if is_positive n then prints msg' ∷ later else delete_fifo f)

-- The loop of the writer over the lines typed.
unfoldable pub type_lines : List Text → Fifo → List Call
unfolding send_fifo
type_lines [] f = []
type_lines (line ∷ lines) f = send_fifo line f ++ type_lines lines f
