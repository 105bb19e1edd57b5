-- ===== src/EchoClient/Tests.antt =====
-- A conversation of concrete lines.
use study_code.Prelude.{◌≡◌, refl, some, List, [], ◌∷◌, arith}
use study_code.Text.{Text}
use study_code.UdpServer.{echo_round}
use study_code.EchoClient.{conversation}
use study_code.EchoClient.Conversation.{echoed, conversation-echoed}

abbrev typed : List Text
typed = (b'h' ∷ b'i' ∷ []) ∷ [] ∷ (b'o' ∷ []) ∷ []

conversation-echoed_example : conversation echo_round typed ≡ some (echoed typed)
conversation-echoed_example =
    conversation-echoed typed (omega arith, refl, (omega arith, refl, (omega arith, refl, tt)))
