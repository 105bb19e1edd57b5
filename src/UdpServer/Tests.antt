-- ===== src/UdpServer/Tests.antt =====
-- The first server at concrete datagrams.
use study_code.Prelude.{◌≡◌, refl, List, [], ◌∷◌}
use study_code.UdpServer.{Received, from, failed, echo_round, rounds}
use study_code.UdpServer.Echo.{addressed}

abbrev spoken : List Received
spoken = from 1 (b'h' ∷ b'i' ∷ []) ∷ failed ∷ from 3 [] ∷ from 2 (b'o' ∷ []) ∷ []

addressed-spoken : addressed (rounds echo_round spoken) ≡ 1 ∷ 2 ∷ []
unfolding rounds echo_round
addressed-spoken = refl
