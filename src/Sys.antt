-- ===== src/Sys.antt =====
-- The system calls that the programs make, as entries of a trace. What the kernel answers is an
-- argument of the modelled code; a file descriptor or a return value is an `int`, so an integer.
use study_code.Prelude.{
  true, refl, ℕ, ◌+◌, ◌≡◌, Bool, false, List, [], ◌∷◌, ◌++◌, arith, ◌==◌, if◌then◌else◌,
}
use study_code.Prelude.Int.{ℤ, pos, negsuc}
use study_code.Text.{Text}

pub data SysCall : Type 0 where
  socket : SysCall
  setsockopt : (fd : ℤ) → SysCall
  bind : (fd : ℤ) (port : ℕ) → SysCall
  listen : (fd backlog : ℤ) → SysCall
  accept : (fd : ℤ) → SysCall
  connect : (fd : ℤ) → SysCall
  get_flags : (fd : ℤ) → SysCall
  set_flags : (fd flags : ℤ) → SysCall
  recv : (fd : ℤ) → SysCall
  send : (fd : ℤ) (bytes : Text) → SysCall
  close : (fd : ℤ) → SysCall
  fork : SysCall
  exit : (status : ℕ) → SysCall

abbrev pub Trace : Type 0
Trace = List SysCall

abbrev pub same_fd : ℤ → ℤ → Bool
same_fd (pos n) (pos m) = n == m
same_fd (negsuc n) (negsuc m) = n == m
same_fd _ _ = false

pub same_fd_refl : (fd : ℤ) → same_fd fd fd ≡ true
same_fd_refl (pos n) = ground arith
same_fd_refl (negsuc n) = ground arith

pub same_fd_sym : (a b : ℤ) → same_fd a b ≡ same_fd b a
same_fd_sym (pos n) (pos m) = ground arith
same_fd_sym (pos n) (negsuc m) = refl
same_fd_sym (negsuc n) (pos m) = refl
same_fd_sym (negsuc n) (negsuc m) = ground arith

-- How often a trace closes a descriptor.
unfoldable pub count_close : ℤ → Trace → ℕ
count_close fd [] = 0
count_close fd (close fd' ∷ trace) = (if same_fd fd fd' then 1 else 0) + count_close fd trace
count_close fd (_ ∷ trace) = count_close fd trace

pub count_close-append :
    (fd : ℤ) (t u : Trace) → count_close fd (t ++ u) ≡ count_close fd t + count_close fd u
unfolding count_close
count_close-append fd [] u = omega arith
count_close-append fd (socket ∷ t) u = count_close-append fd t u
count_close-append fd (close fd' ∷ t) u = omega (arith, count_close-append fd t u)
count_close-append fd (_ ∷ t) u = count_close-append fd t u
