-- ===== src/TcpClient/Closings.antt =====
-- tcp_client.cpp: the socket is closed on each way out.
use study_code.Prelude.{◌≡◌, arith, if◌then◌else◌}
use study_code.Prelude.Int.{is_negative}
use study_code.Sys.{same_fd_refl, count_close}
use study_code.TcpClient.{Setup, new_client, Reply, conmmunicate, main_with, main}

pub main-count_close :
    (r : Setup) (reply : Reply)
    → count_close r.socket_ret (main r reply).1 ≡ (if is_negative r.socket_ret then 0 else 1)
unfolding main main_with new_client conmmunicate count_close
main-count_close r reply = ground (arith, same_fd_refl r.socket_ret)
