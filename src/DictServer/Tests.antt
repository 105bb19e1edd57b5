-- ===== src/DictServer/Tests.antt =====
-- The server at concrete inputs.
use study_code.Prelude.{
  ◌>>=◌, ◌+◌, false, ℕ, zero, suc, ◌≡◌, refl, Bool, true, none, some, List, [], ◌∷◌, ◌++◌, arith,
}
use study_code.Prelude.Int.{ℤ, pos, negsuc, minus_one}
use study_code.Text.{utf8}
use study_code.StringMap.{lookup}
use study_code.Sys.{Trace, recv, send, close, accept, get_flags, set_flags, count_close, same_fd}
use study_code.DictServer.Utils.{closefd}
use study_code.DictServer.Connection.{
  Connection, connected, closed, Io, dict, new_connection, close_connection, send_data, read_data,
  to_lower, translation_or_notice, destroy,
}
use study_code.DictServer.Connection.Life.{Op, sends, closes, step, run, destroy-count_close}
use study_code.DictServer.Connection.Quiet.{closes_last, run-closes_last}
use study_code.DictServer.Connection.Translate.{read_data-translates}
use study_code.DictServer.Reactor.{Heap, World, update}
use study_code.DictServer.Reactor.Epoll
use study_code.DictServer.Socket.{create, accept_client, set_non_blocking, or_nonblock}
use study_code.DictServer.Reactor.Select
use study_code.DictServer.Reactor.Poll
use study_code.DictServer.Reactor.Select.{SelectLoop, fd_setsize}
use study_code.DictServer.Reactor.Poll.{PollLoop}
use study_code.DictServer.Reactor.Steps
use study_code.DictServer.Reactor.Steps.{visits, adds, add_all}
use study_code.DictServer.Reactor.Poll.Divided.{handle_entry, take, never_moved, divided_round}
use study_code.DictServer.Reactor.Select.{visit_one}
use study_code.DictServer.Reactor.Select.Divided
use study_code.DictServer.Reactor.Select.Divided.{Roomy, split_round}
use study_code.DictServer.Reactor.Poll.Serial.{divided_round-round}
use study_code.DictServer.Reactor.Select.Serial.{split_round-round}
use study_code.DictServer.Reactor.Select.Dangling.{split_round_outgrown}
use study_code.DictServer.Reactor.Agree.{round-agree}
use study_code.DictServer.Main.{Server, StartResults, RoundResults, start, main_round}
use study_code.DictServer.Main.Safe.{IsValid}
use study_code.DictServer.Main.Threads.{begun, later, main_thread, Reach-IsValid}
use study_code.DictServer.Main.Process
use study_code.DictServer.Main.Process.{Process, Act, waits}
use study_code.DictServer.Main.Race.{marked_and_reaped, marked_and_reaped_faults}

abbrev ops : List Op
ops = sends (pos 1) (b'x' ∷ []) ∷ sends minus_one [] ∷ closes ∷ []

abbrev ops_trace : Trace
ops_trace = send (pos 4) (b'x' ∷ []) ∷ send (pos 4) [] ∷ close (pos 4) ∷ []

abbrev gone : Connection
gone = record { client_fd = pos 4; status = closed; buffer = [] }

run-ops : run ops (new_connection (pos 4) []) ≡ some (gone, ops_trace)
unfolding run step send_data close_connection closefd
run-ops = refl

destroy-count_close_example : count_close (pos 4) (ops_trace ++ destroy gone) ≡ 1
destroy-count_close_example = destroy-count_close ops (pos 4) [] gone ops_trace refl run-ops

run-closes_last_example : closes_last (pos 4) ops_trace ≡ true
run-closes_last_example =
    run-closes_last ops (new_connection (pos 4) []) gone ops_trace refl run-ops

abbrev hello : Io
hello = record { recv_ret = pos 7; received = utf8 "Hello\r\n"; send_ret = pos 7 }

read_data-translates_example :
    (conn' : Connection) × (read_data hello (new_connection (pos 4) [])
      ≡ some (
        conn',
        recv (pos 4)
            ∷ send
                (pos 4)
                (translation_or_notice (lookup (to_lower (utf8 "Hello")) dict) ++ (b'\n' ∷ []))
            ∷ [],
      ))
    × (conn'.status ≡ connected)
unfolding utf8
read_data-translates_example =
    read_data-translates hello (new_connection (pos 4) []) (utf8 "Hello") (utf8 "\r\n") refl refl
      refl refl refl (omega arith) refl refl

abbrev live_conn : Connection
live_conn = new_connection (pos 4) []

-- A closed connection at 0 and a live one, given its descriptor again, at 1.
abbrev heap : Heap
heap zero = some gone
heap (suc zero) = some live_conn
heap _ = none

abbrev world : World
world fd = hello

abbrev only_four : ℤ → Bool
only_four fd = same_fd fd (pos 4)

abbrev select_loop : SelectLoop
select_loop = record { read_fds = pos 4 ∷ []; max_fd = pos 4; connections = 1 ∷ [] }

abbrev poll_loop : PollLoop
poll_loop = record { poll_fds = pos 4 ∷ []; connections = 1 ∷ [] }

round-agree_example :
    Poll.round world only_four (pos 1) poll_loop heap
    ≡ Select.round world only_four (pos 1) select_loop heap
round-agree_example =
    round-agree world only_four (pos 1) select_loop poll_loop heap refl (refl, tt) (refl, refl, tt)
      (refl, tt)

only_four_eq : (f : ℤ) → only_four f ≡ true → f ≡ pos 4
only_four_eq (pos n) h = ground arith
only_four_eq (negsuc n) h = cc

abbrev started : StartResults
started = record {
  socket_ret = pos 3;
  reuse_ret = pos 0;
  bind_ret = pos 0;
  listen_ret = pos 0;
  epoll_ret = pos 5;
}

abbrev accepts : RoundResults
accepts = record { accept_ret = pos 6; flags = pos 2; epoll_ctl_ret = pos 0; garbage = [] }

abbrev after_first : Server
after_first = record {
  heap = update (λ p. none) 0 (some (new_connection (pos 6) []));
  next = 1;
  connections = 0 ∷ [];
  socket = record { listen_fd = pos 3 };
  loop = record { epfd = pos 5; connections = 0 ∷ [] };
}

abbrev first_trace : Trace
first_trace =
    accept (pos 3)
    ∷ get_flags (pos 6)
    ∷ set_flags (pos 6) (pos 2050)
    ∷ get_flags (pos 6)
    ∷ set_flags (pos 6) (pos 2050)
    ∷ []

first_round : main_round accepts (start started).0 ≡ some (after_first, first_trace)
unfolding main_round start create accept_client set_non_blocking or_nonblock Epoll.add_connection
    Epoll.init
first_round = refl

Reach-IsValid_example : IsValid after_first
Reach-IsValid_example = Reach-IsValid (later begun (main_thread accepts first_trace first_round))

abbrev both : List ℕ
both = 0 ∷ 1 ∷ []

marked_and_reaped_faults_example : marked_and_reaped 1 both heap ≡ none
marked_and_reaped_faults_example =
    marked_and_reaped_faults 1 2 both heap live_conn
      (omega arith, refl, refl, (omega arith, refl, refl, tt)) refl refl refl

abbrev one_accepted : Process
one_accepted = record {
  server = after_first;
  events = [];
  registered = (pos 6, 0) ∷ [];
  closing = none;
}

abbrev fetched : Act
fetched = waits (pos 1) ((some 0, true) ∷ [])

-- A client comes to place 2 before the only entry is handled, and another one behind it.
abbrev newcomers : List Steps.Act
newcomers = adds 2 (new_connection (pos 5) []) ∷ visits ∷ adds 3 (new_connection (pos 6) []) ∷ []

divided_round-round_example : divided_round world only_four (pos 1) newcomers poll_loop heap ≡ (do
  seen ← Poll.round world only_four (pos 1) poll_loop heap
  added ← add_all (handle_entry world only_four) take never_moved newcomers poll_loop seen.0
  some (added.0, added.1, seen.1))
divided_round-round_example =
    divided_round-round world only_four (pos 1) newcomers poll_loop heap
      ((λ e. absurd (omega arith), tt), ((λ e. absurd (omega arith), tt), tt)) (omega arith)

abbrev roomy : Roomy
roomy = record { loop = select_loop; capacity = 4; moved = false }

-- The library doubles the room.
abbrev twice : ℕ → ℕ
twice n = n + n

split_round-round_example : split_round twice world only_four (pos 1) newcomers roomy heap ≡ (do
  seen ← Select.round world only_four (pos 1) select_loop heap
  added ←
      add_all (visit_one world only_four) (Divided.take twice) (λ r. r.moved) newcomers roomy seen.0
  some (added.0, added.1, seen.1))
split_round-round_example =
    split_round-round twice world only_four (pos 1) newcomers roomy heap
      ((λ e. absurd (omega arith), tt), ((λ e. absurd (omega arith), tt), tt)) (omega arith)
      (omega arith)

abbrev full : Roomy
full = record { loop = select_loop; capacity = 1; moved = false }

split_round_outgrown_example :
    split_round twice world only_four
      (pos 1)
      ([] ++ (adds 2 (new_connection (pos 5) []) ∷ visits ∷ []))
      full
      heap
    ≡ none
split_round_outgrown_example =
    split_round_outgrown twice world only_four (pos 1) [] (visits ∷ []) 2
      (new_connection (pos 5) []) full heap refl refl (omega arith) (omega arith)
