-- ===== src/UdpServer/Callback.antt =====
-- echo_server2/EchoServer.hpp: the callback sees each message, and nobody is answered.
use study_code.Prelude.{◌≡◌, refl, ap, List, [], ◌∷◌}
use study_code.Text.{Text, terminated}
use study_code.UdpServer.{
  Received, from, failed, Out, sendto, calls, receive_error, callback_round, rounds,
}
use study_code.UdpServer.Echo.{addressed}

-- The words that the callback is called with, in order, and the texts of the datagrams.
abbrev pub words : List Out → List Text
words [] = []
words (calls word ∷ out) = word ∷ words out
words (sendto peer bytes ∷ out) = words out
words (receive_error ∷ out) = words out

abbrev pub said : List Received → List Text
said [] = []
said (from peer [] ∷ rs) = said rs
said (from peer (b ∷ bs) ∷ rs) = terminated 1023 (b ∷ bs) ∷ said rs
said (failed ∷ rs) = said rs

-- Whatever the callback and the datagrams are, the second server calls the callback with each
-- text, in order, and never sends anything.
pub callback_rounds-silent :
    (cb : Text → Text) (rs : List Received)
    → (addressed (rounds (callback_round cb) rs) ≡ [])
      × (words (rounds (callback_round cb) rs) ≡ said rs)
unfolding rounds callback_round
callback_rounds-silent cb [] = (refl, refl)
callback_rounds-silent cb (from peer [] ∷ rs) = callback_rounds-silent cb rs
callback_rounds-silent cb (from peer (b ∷ bs) ∷ rs) =
    let (silent, heard) = callback_rounds-silent cb rs in
    (silent, ap (λ l. terminated 1023 (b ∷ bs) ∷ l) heard)
callback_rounds-silent cb (failed ∷ rs) = callback_rounds-silent cb rs
