-- ===== src/EchoClient.antt =====
-- echo_server/EchoClient.cc, which echo_server2 repeats: a client that sends each line typed and shows the
-- answer; and its conversation with one of the servers of UdpServer over a network that loses nothing.
pub mod Conversation
mod Tests
use study_code.Prelude.{
  ℕ, Bool, true, false, Option, none, some, List, [], ◌∷◌, ◌++◌, ◌==◌, if◌then◌else◌, length, ◌>>=◌,
}
use study_code.Prelude.Int.{ℤ, pos, is_positive}
use study_code.Text.{Text, terminated}
use study_code.UdpServer.{Received, from, Out, sendto, calls, receive_error}

-- What `recvfrom` does: it gives a datagram, fails, or does not return.
pub data Answer : Type 0 where
  datagram : (s : Text) → Answer
  failed never : Answer

-- The client behind `sendto`: the lines it prints, or `none` where it waits for ever.
abbrev pub listen_for : Answer → Option (List Text)
listen_for never = none
listen_for failed = some []
listen_for (datagram []) = some []
listen_for (datagram (b ∷ bs)) = some (terminated 1023 (b ∷ bs) ∷ [])

-- A round of the client's loop, where `sendto` returns the given value.
unfoldable pub client_round : ℤ → Answer → Option (List Text)
client_round sendto_ret answer = if is_positive sendto_ret then listen_for answer else some []

-- The peer that the client's own socket is to the server.
abbrev pub own_peer : ℕ
own_peer = 0

-- The first datagram that a server sends to a peer; those to others do not reach it.
abbrev pub answer_to : ℕ → List Out → Answer
answer_to peer [] = never
answer_to peer (sendto to bytes ∷ out) =
    let later = answer_to peer out in if to == peer then datagram bytes else later
answer_to peer (calls word ∷ out) = answer_to peer out
answer_to peer (receive_error ∷ out) = answer_to peer out

-- The client's loop over the lines typed, with a server that takes a round for each datagram. A line that
-- is sent is sent whole, as one datagram.
unfoldable pub conversation : (Received → List Out) → List Text → Option (List Text)
unfolding client_round
conversation server [] = some []
conversation server (line ∷ lines) = do
  shown ← client_round (pos (length line)) (answer_to own_peer (server (from own_peer line)))
  rest ← conversation server lines
  some (shown ++ rest)
