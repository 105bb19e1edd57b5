-- ===== src/SharedMemory.antt =====
-- shm/A.cc and shm/B.cc, which pass a message through a shared segment, and 11_18/Shm.hpp, a wrapper of
-- such a segment. What the calls return are arguments; a segment is the list of its bytes.
pub mod Message
pub mod Wrapper
mod Tests
use study_code.Prelude.{
  ◌>>=◌, ℕ, suc, ◌+◌, Bool, true, false, Option, none, some, List, [], ◌∷◌, ◌++◌, length, drop, leb,
  if◌then◌else◌,
}
use study_code.Prelude.Int.{ℤ, pos, negsuc, minus_one, is_negative}
use study_code.Sys.{same_fd}
use study_code.Text.{Text, utf8, c_string}

-- The calls on a segment, what B reads and prints, and the end of the process, with what it passes to `exit`. The calls
-- of `shmget` create the segment, create it and want it to be new, or only look for it.
pub data Call : Type 0 where
  ftok : (path : Text) (id : ℕ) → Call
  shmget_create shmget_exclusive shmget_find : (key : ℤ) (size : ℕ) → Call
  shmat shmdt : (id : ℤ) → Call
  shmctl_stat shmctl_remove : (id : ℤ) → Call
  prints : (s : Text) → Call
  exits : (status : ℤ) → Call

-- What the calls of a program return, each at its turn.
pub record Answers : Type 0 where
  pub ftok_ret : ℤ
  pub shmget_ret : ℤ
  pub shmat_ret : ℤ
  pub shmdt_ret : ℤ
  pub shmctl_ret : ℤ

-- The comparison with -1.
abbrev pub fails : ℤ → Bool
fails ret = same_fd ret minus_one

-- `SHM_SIZE`, which both programs ask for.
abbrev pub shm_size : ℕ
shm_size = 1024

-- `KEY_PATH` and `KEY_ID`, of both programs.
abbrev pub key_path : Text
key_path = b'.' ∷ []

abbrev pub key_id : ℕ
key_id = b'a'

-- `strcpy` to the front of the segment, the NUL included; `none` writes past its end.
abbrev pub strcpy : Text → List ℕ → Option (List ℕ)
strcpy s segment =
    if leb (suc (length s)) (length segment)
    then some ((s ++ (0 ∷ [])) ++ drop (suc (length s)) segment)
    else none

abbrev pub message : Text
unfolding utf8
message = utf8 "i am process A"

-- A's `main`: the segment behind it, and its calls; `none` writes past the end of the segment.
unfoldable pub a_main : Answers → List ℕ → Option (List ℕ × List Call)
a_main a segment =
    if fails a.ftok_ret
    then some (segment, ftok key_path key_id ∷ exits (negsuc 0) ∷ [])
    else if fails a.shmget_ret
    then some
        (segment, ftok key_path key_id ∷ shmget_create a.ftok_ret shm_size ∷ exits (negsuc 1) ∷ [])
    else if fails a.shmat_ret
    then some (
      segment,
      ftok key_path key_id
          ∷ shmget_create a.ftok_ret shm_size
          ∷ shmat a.shmget_ret
          ∷ exits (negsuc 2)
          ∷ [],
    )
    else do
      written ← strcpy message segment
      some (
        written,
        ftok key_path key_id
            ∷ shmget_create a.ftok_ret shm_size
            ∷ shmat a.shmget_ret
            ∷ shmdt a.shmat_ret
            ∷ exits (if fails a.shmdt_ret then negsuc 3 else pos 0)
            ∷ [],
      )

-- What B does behind printing.
unfoldable pub b_ends : Answers → List Call
b_ends a =
    if fails a.shmdt_ret
    then shmdt a.shmat_ret ∷ exits (negsuc 3) ∷ []
    else if fails a.shmctl_ret
    then shmdt a.shmat_ret ∷ shmctl_remove a.shmget_ret ∷ exits (negsuc 4) ∷ []
    else shmdt a.shmat_ret ∷ shmctl_remove a.shmget_ret ∷ exits (pos 0) ∷ []

-- B's `main`; `none` reads past the end of the segment.
unfoldable pub b_main : Answers → List ℕ → Option (List Call)
unfolding b_ends c_string
b_main a segment =
    if fails a.ftok_ret
    then some (ftok key_path key_id ∷ exits (negsuc 0) ∷ [])
    else if fails a.shmget_ret
    then some (ftok key_path key_id ∷ shmget_find a.ftok_ret shm_size ∷ exits (negsuc 1) ∷ [])
    else if fails a.shmat_ret
    then some (
        ftok key_path key_id
        ∷ shmget_find a.ftok_ret shm_size
        ∷ shmat a.shmget_ret
        ∷ exits (negsuc 2)
        ∷ [])
    else do
      seen ← c_string segment
      some (
          ftok key_path key_id
          ∷ shmget_find a.ftok_ret shm_size
          ∷ shmat a.shmget_ret
          ∷ prints seen
          ∷ b_ends a)

-- 11_18/Shm.hpp: `_shmid` and `_start_addr`; `_size` does not change.
pub record Shm : Type 0 where
  pub shmid : ℤ
  pub start_addr : ℤ

-- `PYTHNAME`, `PROJ_ID` and `gsize`.
abbrev pub pythname : Text
pythname = b'/' ∷ b't' ∷ b'm' ∷ b'p' ∷ []

abbrev pub proj_id : ℕ
proj_id = 102

abbrev pub gsize : ℕ
gsize = 4096

-- A member, with what the calls that it makes return.
pub data Op : Type 0 where
  creates : (ftok_ret shmget_ret : ℤ) → Op
  gets : (ftok_ret shmget_ret : ℤ) → Op
  attaches : (shmat_ret : ℤ) → Op
  asks : (shmctl_ret : ℤ) → Op
  deletes : (shmdt_ret : ℤ) → Op

-- The constructor; the null pointer is 0.
unfoldable pub new_shm : Shm
new_shm = record { shmid = minus_one; start_addr = pos 0 }

-- A member; `none`: the process exits.
unfoldable pub step : Op → Shm → Option Shm × List Call
step (creates ftok_ret shmget_ret) s =
    if is_negative ftok_ret
    then (none, ftok pythname proj_id ∷ exits (pos 1) ∷ [])
    else if is_negative shmget_ret
    then (none, ftok pythname proj_id ∷ shmget_exclusive ftok_ret gsize ∷ exits (pos 2) ∷ [])
    else (
      some (record s { shmid = shmget_ret }),
      ftok pythname proj_id ∷ shmget_exclusive ftok_ret gsize ∷ [],
    )
step (gets ftok_ret shmget_ret) s =
    if is_negative ftok_ret then (none, ftok pythname proj_id ∷ exits (pos 1) ∷ []) else (
      some (record s { shmid = shmget_ret }),
      ftok pythname proj_id ∷ shmget_exclusive ftok_ret gsize ∷ [],
    )
step (attaches shmat_ret) s =
    if fails shmat_ret
    then (none, shmat s.shmid ∷ exits (pos 3) ∷ [])
    else (some (record s { start_addr = shmat_ret }), shmat s.shmid ∷ [])
step (asks shmctl_ret) s =
    if is_negative shmctl_ret
    then (none, shmctl_stat s.shmid ∷ exits (pos 4) ∷ [])
    else (some s, shmctl_stat s.shmid ∷ [])
step (deletes shmdt_ret) s = (some s, shmdt s.start_addr ∷ [])

abbrev pub calls_then : (Shm → List Call) → Option Shm → List Call
calls_then later none = []
calls_then later (some s) = later s

-- Members one after another, until the process exits.
unfoldable pub run : List Op → Shm → List Call
unfolding step
run [] s = []
run (op ∷ ops) s = let r = step op s in r.1 ++ calls_then (run ops) r.0
