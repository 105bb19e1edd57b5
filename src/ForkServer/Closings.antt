-- ===== src/ForkServer/Closings.antt =====
-- tcp_server.cpp: which descriptors the parent and its children close.
use study_code.Prelude.{
  ℕ, ◌+◌, ◌≡◌, Bool, true, false, not, ◌&&◌, Option, none, some, List, [], ◌∷◌, arith,
  if◌then◌else◌,
}
use study_code.Prelude.Int.{ℤ, is_negative, is_zero}
use study_code.Sys.{same_fd_refl, same_fd_sym, same_fd, count_close, count_close-append}
use study_code.ForkServer.{Setup, new_server, Round, child, round, run}

abbrev pub count : Bool → ℕ
count true = 1
count false = 0

-- The rounds that handed a connection on the descriptor to a child.
abbrev pub forked : List Round → ℤ → ℕ
forked [] fd = 0
forked (r ∷ rs) fd =
    count (not (is_negative r.conn_fd) && not (is_negative r.pid) && same_fd fd r.conn_fd)
    + forked rs fd

-- The rounds in which a connection came and `fork` failed.
abbrev pub failures : List Round → ℕ
failures [] = 0
failures (r ∷ rs) = count (not (is_negative r.conn_fd) && is_negative r.pid) + failures rs

-- In the parent `fork` returns a child's number or a failure.
abbrev pub AllParent : List Round → Type 0
AllParent [] = Unit
AllParent (r ∷ rs) = (is_zero r.pid ≡ false) × AllParent rs

round-count_close :
    (listen_fd : ℤ) (r : Round) (fd : ℤ)
    → is_zero r.pid ≡ false
    → count_close fd (round listen_fd r)
      ≡ forked (r ∷ []) fd + (if same_fd fd listen_fd then failures (r ∷ []) else 0)
unfolding round count_close
round-count_close listen_fd r fd h = ground arith

-- Over any rounds of the loop, in each of which `fork` returns to the parent as such, the parent
-- closes a descriptor once for each connection on it that was handed to a child, and the listening
-- descriptor once more for each `fork` that failed.
pub run-count_close :
    (listen_fd : ℤ) (rs : List Round) (fd : ℤ)
    → AllParent rs
    → count_close fd (run listen_fd rs)
      ≡ forked rs fd + (if same_fd fd listen_fd then failures rs else 0)
unfolding run count_close
run-count_close listen_fd [] fd h = ground arith
run-count_close listen_fd (r ∷ rs) fd (parent, h) =
    rw (count_close-append fd (round listen_fd r) (run listen_fd rs))
      (ground (arith, round-count_close listen_fd r fd parent, run-count_close listen_fd rs fd h))

-- A child whose connection is not on the listening descriptor closes each of the two exactly once,
-- whatever it receives.
pub child-count_close :
    (listen_fd : ℤ) (r : Round)
    → same_fd listen_fd r.conn_fd ≡ false
    → (count_close listen_fd (child listen_fd r) ≡ 1)
      × (count_close r.conn_fd (child listen_fd r) ≡ 1)
unfolding child count_close
child-count_close listen_fd r h = (
  ground (arith, same_fd_refl listen_fd),
  ground (arith, same_fd_refl r.conn_fd, same_fd_sym listen_fd r.conn_fd),
)

abbrev pub opened : Option ℤ → ℕ
opened none = 0
opened (some fd) = 1

-- If a socket is made, the constructor either gives it to the server and has not closed it, or
-- closes it exactly once.
pub new_server-count_close :
    (r : Setup)
    → is_negative r.socket_ret ≡ false
    → count_close r.socket_ret (new_server r).1 + opened (new_server r).0 ≡ 1
unfolding new_server count_close
new_server-count_close r h = ground (arith, same_fd_refl r.socket_ret)
