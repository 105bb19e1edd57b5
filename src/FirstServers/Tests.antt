-- ===== src/FirstServers/Tests.antt =====
-- The first programs at concrete inputs.
use study_code.Prelude.{◌≡◌, refl, some, List, [], ◌∷◌}
use study_code.Prelude.Int.{pos}
use study_code.FirstServers.{Received, from, udp_server}
use study_code.FirstServers.Datagrams.{shown_and_answered, udp_server-shown}

abbrev two_datagrams : List Received
two_datagrams = from 1 (b'h' ∷ b'i' ∷ []) ∷ from 2 [] ∷ []

udp_server-shown_example :
    udp_server (pos 3) (pos 0) two_datagrams ≡ some (shown_and_answered two_datagrams)
udp_server-shown_example =
    udp_server-shown (pos 3) (pos 0) two_datagrams refl refl (refl, (refl, tt))
