-- ===== src/DictServer/Connection/Life.antt =====
-- Connection.cpp: the life of a connection as a sequence of its methods.
use study_code.Prelude.{
  ◌>>=◌, ℕ, ◌+◌, ◌≡◌, refl, ◌∙◌, subst, true, Option, some, List, [], ◌∷◌, ◌++◌, arith,
  Option-cases, some-eq_some, inl, inr,
}
use study_code.Prelude.Int.{ℤ, is_positive}
use study_code.Text.{Text, c_string}
use study_code.Sys.{same_fd_refl, Trace, count_close, count_close-append}
use study_code.DictServer.Utils.{closefd}
use study_code.DictServer.Connection.{
  Connection, ConnStatus, connected, closed, Io, new_connection, close_connection, send_data,
  read_data, destroy, fill_buffer,
}

pub data Op : Type 0 where
  reads : Io → Op
  sends : (ret : ℤ) (msg : Text) → Op
  closes : Op

unfoldable pub step : Op → Connection → Option (Connection × Trace)
step (reads io) conn = read_data io conn
step (sends ret msg) conn = some (send_data ret msg conn)
step closes conn = some (close_connection conn)

unfoldable pub run : List Op → Connection → Option (Connection × Trace)
run [] conn = some (conn, [])
run (op ∷ ops) conn = do
  stepped ← step op conn
  rest ← run ops stepped.0
  some (rest.0, stepped.1 ++ rest.1)

-- How often the descriptor still has to be closed.
abbrev pub to_close : ConnStatus → ℕ
to_close connected = 1
to_close closed = 0

abbrev pub Keeps : Connection → Connection × Trace → Type 0
Keeps conn (conn', trace) =
    (conn'.client_fd ≡ conn.client_fd)
    × (count_close conn.client_fd trace + to_close conn'.status ≡ to_close conn.status)

close_connection-Keeps :
    (conn : Connection) → is_positive conn.client_fd ≡ true → Keeps conn (close_connection conn)
unfolding close_connection closefd count_close
close_connection-Keeps conn h = ground (arith, same_fd_refl conn.client_fd)

send_data-Keeps :
    (ret : ℤ) (msg : Text) (conn : Connection)
    → is_positive conn.client_fd ≡ true
    → Keeps conn (send_data ret msg conn)
unfolding send_data closefd count_close
send_data-Keeps ret msg conn h = ground (arith, same_fd_refl conn.client_fd)

read_data-Keeps :
    (io : Io) (conn : Connection) (after : Connection × Trace)
    → is_positive conn.client_fd ≡ true
    → read_data io conn ≡ some after
    → Keeps conn after
unfolding read_data closefd count_close
read_data-Keeps io conn after h e = elim (Option-cases (c_string (fill_buffer io.received))) [
  | inl n ↦ ground (arith, n, same_fd_refl conn.client_fd)
  | inr (input, f) ↦ ground (arith, f, same_fd_refl conn.client_fd)
]

pub step-Keeps :
    (op : Op) (conn : Connection) (after : Connection × Trace)
    → is_positive conn.client_fd ≡ true
    → step op conn ≡ some after
    → Keeps conn after
unfolding step
step-Keeps (reads io) conn after h e = read_data-Keeps io conn after h e
step-Keeps (sends ret msg) conn after h e =
    subst (Keeps conn) (some-eq_some e) (send_data-Keeps ret msg conn h)
step-Keeps closes conn after h e =
    subst (Keeps conn) (some-eq_some e) (close_connection-Keeps conn h)

run-Keeps :
    (ops : List Op) (conn : Connection) (after : Connection × Trace)
    → is_positive conn.client_fd ≡ true
    → run ops conn ≡ some after
    → Keeps conn after
unfolding run count_close
run-Keeps [] conn after h e = subst (Keeps conn) (some-eq_some e) (refl, omega arith)
run-Keeps (op ∷ ops) conn after h e = elim (Option-cases (step op conn)) [
  | inl n ↦ absurd (ground (arith, n))
  | inr (stepped, f) ↦ elim (Option-cases (run ops stepped.0)) [
    | inl n ↦ absurd (ground (arith, n, f))
    | inr (rest, g) ↦
        let (same_fd', counted) = step-Keeps op conn stepped h f in
        let here : is_positive stepped.0.client_fd ≡ true = rw same_fd' h in
        let (same_fd'', counted') = run-Keeps ops stepped.0 rest here g in
        let e' : some (rest.0, stepped.1 ++ rest.1) ≡ some after = ground (arith, e, f, g) in
        subst (Keeps conn) (some-eq_some e') (
          same_fd'' ∙ same_fd',
          rw (count_close-append conn.client_fd stepped.1 rest.1)
              (ground (arith, counted, counted', same_fd')),
        )
  ]
]

close_connection-status : (conn : Connection) → (close_connection conn).0.status ≡ closed
unfolding close_connection
close_connection-status conn = ground arith

-- Whatever is read and sent and however often it is closed, by the end of its life, the destructor
-- included, a connection on a positive descriptor has closed it exactly once, if no method read
-- past the buffer.
pub destroy-count_close :
    (ops : List Op) (fd : ℤ) (garbage : List ℕ) (conn : Connection) (trace : Trace)
    → is_positive fd ≡ true
    → run ops (new_connection fd garbage) ≡ some (conn, trace)
    → count_close fd (trace ++ destroy conn) ≡ 1
unfolding destroy
destroy-count_close ops fd garbage conn trace h e =
    let (same, counted) = run-Keeps ops (new_connection fd garbage) (conn, trace) h e in
    let (same', counted') = close_connection-Keeps conn (rw same h) in
    rw (count_close-append fd trace (close_connection conn).1)
      (ground (arith, counted, counted', same, close_connection-status conn))
