-- ===== src/EchoClient/Conversation.antt =====
-- EchoClient.cc with each of the two servers.
use study_code.Prelude.{
  ◌≤◌, ◌≡◌, refl, ap, Bool, true, false, Option, none, some, List, [], ◌∷◌, ◌++◌, if◌then◌else◌,
  length, arith, ◌>>=◌,
}
use study_code.Text.{Text, utf8}
use study_code.Text.Split.{lacks}
use study_code.Text.Buffer.{terminated-whole}
use study_code.UdpServer.{echo_round, callback_round}
use study_code.EchoClient.{datagram, listen_for, client_round, conversation}

-- Lines without a NUL whose echo fits the client's buffer.
abbrev pub Lines : List Text → Type 0
Lines [] = Unit
Lines (line ∷ lines) = (length line ≤ 1011) × (lacks 0 line ≡ true) × Lines lines

-- What the user expects to see: an echo of each line that is not empty.
abbrev pub echoed : List Text → List Text
echoed [] = []
echoed ([] ∷ lines) = echoed lines
echoed ((b ∷ bs) ∷ lines) = (utf8 "server echo#" ++ (b ∷ bs)) ∷ echoed lines

listen_for_echo :
    (line : Text)
    → length line ≤ 1011
    → lacks 0 line ≡ true
    → listen_for (datagram (utf8 "server echo#" ++ line))
      ≡ some ((utf8 "server echo#" ++ line) ∷ [])
unfolding utf8
listen_for_echo line h k =
    ap (λ t. some (t ∷ [])) (terminated-whole 1023 (utf8 "server echo#" ++ line) (omega arith) k)

-- A user who types lines of at most 1011 bytes without a NUL sees, with the first server and a
-- network that loses nothing, each line that is not empty behind the server's words, in order, and
-- the client never waits for ever.
pub conversation-echoed :
    (lines : List Text) → Lines lines → conversation echo_round lines ≡ some (echoed lines)
unfolding conversation client_round echo_round
conversation-echoed [] h = refl
conversation-echoed ([] ∷ lines) (size, clean, h) = rw (conversation-echoed lines h) refl
conversation-echoed ((b ∷ bs) ∷ lines) (size, clean, h) =
    rw (terminated-whole 1023 (b ∷ bs) (omega arith) clean)
      (rw (listen_for_echo (b ∷ bs) size clean) (rw (conversation-echoed lines h) refl))

-- Whether all lines are empty.
abbrev pub silent : List Text → Bool
silent [] = true
silent ([] ∷ lines) = silent lines
silent ((b ∷ bs) ∷ lines) = false

nothing_shown :
    (b : Bool) (shown : Option (List Text))
    → shown ≡ (if b then some [] else none)
    → (shown >>= (λ rest. some ([] ++ rest))) ≡ (if b then some [] else none)
nothing_shown true shown e = rw e refl
nothing_shown false shown e = rw e refl

-- With the second server, whatever the callback is, the client waits for ever as soon as a line
-- that is not empty is typed, and shows nothing otherwise.
pub conversation-silent :
    (cb : Text → Text) (lines : List Text)
    → conversation (callback_round cb) lines ≡ (if silent lines then some [] else none)
unfolding conversation client_round callback_round
conversation-silent cb [] = refl
conversation-silent cb ([] ∷ lines) =
    nothing_shown (silent lines) (conversation (callback_round cb) lines)
      (conversation-silent cb lines)
conversation-silent cb ((b ∷ bs) ∷ lines) = refl
