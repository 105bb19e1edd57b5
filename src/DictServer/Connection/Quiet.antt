-- ===== src/DictServer/Connection/Quiet.antt =====
-- Connection.cpp: the order of the calls that a connection makes, and its faults.
use study_code.Prelude.{
  ℕ, ◌+◌, ◌≤◌, ◌<◌, ◌≡◌, refl, subst, Bool, true, false, some, List, [], ◌∷◌, ◌++◌, arith, length,
  if◌then◌else◌, Option-cases, some-eq_some, inl, inr, ◌-◌, append-nil,
}
use study_code.Prelude.Int.{ℤ, is_positive}
use study_code.Text.{Text, c_string}
use study_code.Sys.{SysCall, Trace, close, count_close, same_fd}
use study_code.DictServer.Utils.{closefd}
use study_code.DictServer.Connection.{
  Connection, ConnStatus, connected, closed, Io, buffer_size, close_connection, send_data,
  read_data, fill_buffer,
}
use study_code.Text.Buffer.{c_string-fill}
use study_code.DictServer.Connection.Life.{
  Op, reads, sends, closes, step, run, to_close, step-Keeps,
}

-- A closed connection makes no call, whatever it is asked.
run_closed :
    (ops : List Op) (conn : Connection) → conn.status ≡ closed → run ops conn ≡ some (conn, [])
unfolding run step read_data send_data close_connection
run_closed [] conn h = refl
run_closed (reads io ∷ ops) conn h = ground (arith, run_closed ops conn h)
run_closed (sends ret msg ∷ ops) conn h = ground (arith, run_closed ops conn h)
run_closed (closes ∷ ops) conn h = ground (arith, run_closed ops conn h)

abbrev is_close : ℤ → SysCall → Bool
is_close fd (close fd') = same_fd fd fd'
is_close fd _ = false

abbrev is_empty : Trace → Bool
is_empty [] = true
is_empty (c ∷ t) = false

-- Nothing follows the closing of the descriptor.
unfoldable pub closes_last : ℤ → Trace → Bool
closes_last fd [] = true
closes_last fd (c ∷ t) = if is_close fd c then is_empty t else closes_last fd t

closes_last-append :
    (fd : ℤ) (t u : Trace)
    → count_close fd t ≡ 0
    → closes_last fd u ≡ true
    → closes_last fd (t ++ u) ≡ true
unfolding closes_last count_close
closes_last-append fd [] u h k = k
closes_last-append fd (close fd' ∷ t) u h k = ground (arith, closes_last-append fd t u)
closes_last-append fd (_ ∷ t) u h k = closes_last-append fd t u h k

close_connection-closes_last :
    (fd : ℤ) (conn : Connection) → closes_last fd (close_connection conn).1 ≡ true
unfolding close_connection closefd closes_last
close_connection-closes_last fd conn = ground arith

send_data-closes_last :
    (fd ret : ℤ) (msg : Text) (conn : Connection) → closes_last fd (send_data ret msg conn).1 ≡ true
unfolding send_data closefd closes_last
send_data-closes_last fd ret msg conn = ground arith

step-closes_last :
    (fd : ℤ) (op : Op) (conn : Connection) (after : Connection × Trace)
    → step op conn ≡ some after
    → closes_last fd after.1 ≡ true
unfolding step read_data closes_last closefd
step-closes_last fd (reads io) conn after e =
    elim (Option-cases (c_string (fill_buffer io.received))) [
      | inl n ↦ ground (arith, n)
      | inr (input, f) ↦ ground (arith, f)
    ]
step-closes_last fd (sends ret msg) conn after e =
    subst (λ a. closes_last fd a.1 ≡ true) (some-eq_some e) (send_data-closes_last fd ret msg conn)
step-closes_last fd closes conn after e =
    subst (λ a. closes_last fd a.1 ≡ true) (some-eq_some e) (close_connection-closes_last fd conn)

closes_last_rest :
    (fd : ℤ) (status : ConnStatus) (ops : List Op) (stepped rest : Connection × Trace) (before : ℕ)
    → stepped.0.status ≡ status
    → before ≤ 1
    → count_close fd stepped.1 + to_close stepped.0.status ≡ before
    → run ops stepped.0 ≡ some rest
    → closes_last fd stepped.1 ≡ true
    → closes_last fd rest.1 ≡ true
    → closes_last fd (stepped.1 ++ rest.1) ≡ true
closes_last_rest fd connected ops stepped rest before s b c e h k =
    closes_last-append fd stepped.1 rest.1 (ground arith) k
closes_last_rest fd closed ops stepped rest before s b c e h k =
    let none_left : rest.1 ≡ [] = ground (arith, run_closed ops stepped.0 s) in
    rw none_left (rw (append-nil stepped.1) h)

to_close_le : (s : ConnStatus) → to_close s ≤ 1
to_close_le connected = omega arith
to_close_le closed = omega arith

run-closes_last_pair :
    (ops : List Op) (conn : Connection) (after : Connection × Trace)
    → is_positive conn.client_fd ≡ true
    → run ops conn ≡ some after
    → closes_last conn.client_fd after.1 ≡ true
unfolding run closes_last
run-closes_last_pair [] conn after h e = ground arith
run-closes_last_pair (op ∷ ops) conn after h e = elim (Option-cases (step op conn)) [
  | inl n ↦ absurd (ground (arith, n))
  | inr (stepped, f) ↦ elim (Option-cases (run ops stepped.0)) [
    | inl n ↦ absurd (ground (arith, n, f))
    | inr (rest, g) ↦
        let fd = conn.client_fd in
        let (same, counted) = step-Keeps op conn stepped h f in
        let later : closes_last fd rest.1 ≡ true =
          rw (← same) (run-closes_last_pair ops stepped.0 rest (rw same h) g) in
        let e' : some (rest.0, stepped.1 ++ rest.1) ≡ some after = ground (arith, e, f, g) in
        subst (λ a. closes_last fd a.1 ≡ true) (some-eq_some e')
          (closes_last_rest fd stepped.0.status ops stepped rest (to_close conn.status) refl
            (to_close_le conn.status) counted g (step-closes_last fd op conn stepped f) later)
  ]
]

-- In the calls that any sequence of a connection's methods makes without a fault, on a positive
-- descriptor, no call follows the closing of the descriptor.
pub run-closes_last :
    (ops : List Op) (conn conn' : Connection) (trace : Trace)
    → is_positive conn.client_fd ≡ true
    → run ops conn ≡ some (conn', trace)
    → closes_last conn.client_fd trace ≡ true
run-closes_last ops conn conn' trace h e = run-closes_last_pair ops conn (conn', trace) h e

-- Every message fits the buffer with room for a NUL.
abbrev pub AllFit : List Op → Type 0
AllFit [] = Unit
AllFit (reads io ∷ ops) = (length io.received < buffer_size) × AllFit ops
AllFit (sends _ _ ∷ ops) = AllFit ops
AllFit (closes ∷ ops) = AllFit ops

pub read_data-total :
    (io : Io) (conn : Connection)
    → length io.received < buffer_size
    → (after : Connection × Trace) × (read_data io conn ≡ some after)
unfolding read_data
read_data-total io conn h =
    let (input, e) = c_string-fill io.received (buffer_size - length io.received) (omega arith) in
    elim (Option-cases (read_data io conn)) [
      | inl n ↦ absurd (ground (arith, n, e))
      | inr returned ↦ returned
    ]

-- While messages fit the buffer with room for a NUL, no method faults and every sequence of
-- methods runs to its end.
pub run-total :
    (ops : List Op) (conn : Connection)
    → AllFit ops
    → (after : Connection × Trace) × (run ops conn ≡ some after)
unfolding run step
run-total [] conn h = ((conn, []), refl)
run-total (reads io ∷ ops) conn (fit, h) =
    let (stepped, f) = read_data-total io conn fit in
    let (rest, g) = run-total ops stepped.0 h in ((rest.0, stepped.1 ++ rest.1), rw f (rw g refl))
run-total (sends ret msg ∷ ops) conn h =
    let stepped = send_data ret msg conn in
    let (rest, g) = run-total ops stepped.0 h in ((rest.0, stepped.1 ++ rest.1), rw g refl)
run-total (closes ∷ ops) conn h =
    let stepped = close_connection conn in
    let (rest, g) = run-total ops stepped.0 h in ((rest.0, stepped.1 ++ rest.1), rw g refl)
