-- ===== src/DictServer/Main/Process/Safety.antt =====
-- main.cpp and EpollLoop.cpp: what every act of either thread meets.
use study_code.DictServer.Reactor.Epoll
use study_code.DictServer.Main.Process.{Process}
use study_code.DictServer.Main.Process.Ready.{Ready}
use study_code.DictServer.Main.Process.Watched.{Watched}
