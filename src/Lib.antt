-- ===== src/Lib.antt =====
-- Models and proofs for the network programs and the thread exercises of the repository.
--
-- Conventions. A text is the list of its bytes, an `int`, `ssize_t` or `time_t` is an integer, and a
-- program that talks to the kernel is a function from what the calls return to the new state and the
-- trace of the calls made (Sys). `none` is a fault: a read past a buffer, a `substr` past the end, a
-- dangling pointer, a descriptor outside an `fd_set`. Clock, random generator, files and the kernel
-- are not in the repository, so what they answer is an argument. Console output and `perror` are
-- left out, but for what the clients, the logger and the exercises on threads print.
--
-- Prelude, Text, StringMap and Sys are shared: Boolean tests, lists, integers; `std::string`,
-- `std::getline`, `std::to_string`; `std::unordered_map`; system calls.
--
-- Http is http-server-cpp. Http/Cookie.antt models src/CookieUtil.cpp (parseCookies is
-- `parse_cookies`, its loop body `store_pair`; positions are `size_t`, and the subtraction under
-- `substr` wraps at 2^64). Http/Session.antt models src/SessionManager.cpp, one function per member;
-- the mutex is held from the first to the last line of each, so that a call is one step;
-- Http/Session/Unordered.antt forgets the order of the entries by a quotient and gives what a table
-- looks like from outside.
-- Http/Server.antt models src/HttpServer.cpp and src/main.cpp: `handle_client` goes from the bytes
-- read to the reply by way of the cookies, the chain of routes (`respond`) and the sessions; `serve`
-- is the loop of `start` over a list of connections, since the loop itself does not end; the call of
-- `read` is in the trace as `recv`. Http/Server/Home.antt says which requests ask for the home page
-- with a session id.
--
-- DictServer is Project_TCPServer_Plus. Log, Utils, Socket and Connection model the files of those
-- names under src/. A connection is a state machine (`connected`, `closed`) whose methods are
-- `read_data`, `send_data`, `close_connection` and the destructor `destroy`. Reactor.antt and its
-- children model the three event loops over a heap of connections, a round of `run` at a time.
-- Main.antt models src/main.cpp: `main_round` is a round of the accepting thread, `loop_round` one
-- of the event loop's thread, and Main/Threads.antt has their interleavings round by round.
-- Main/Process.antt has them between the events that `epoll_wait` reported, and between accepting
-- and erasing, over what the kernel keeps, the descriptors that epoll watches with their pointers; the
-- body of EpollLoop.cpp's loop for one event is two steps, up to the call of `close` and that call
-- (Process/Whole.antt puts them together again), and erasing is held back between the two, which
-- Main/Race.antt shows to be needed: there the main thread erases between the two statements of
-- `closeConnection`. Reactor/Steps.antt divides the
-- rounds of the other two loops at their entries, with the main thread's additions in between;
-- Poll/Divided.antt and Select/Divided.antt fill it in, the latter with the room of the array behind
-- `m_connections`, which it goes over without the mutex. Times do not wrap, and `snprintf` and
-- `vsnprintf` are represented by their results.
--
-- ForkServer and ThreadServer are TCP2fork/tcp_server.cpp and TCP3pthread/tcp_server.cpp: the
-- constructor, and rounds of `run` with the traces of the children or threads apart. BlockQueue is
-- thread3/BlockQueue.hpp, RingQueue thread4/RingQueue.hpp with Sem.hpp, and ThreadPool
-- thread5/ThreadPool.hpp: a step is what one thread does between two points at which others may run,
-- and a run is any sequence of steps. ThreadPool/Workers.antt adds where each worker stands (about to
-- take the mutex, waiting, woken, gone), so that a signal wakes one that waits and `Wait` returns when
-- all have gone; ThreadPool/Main.antt is thread5/Main.cc with its task on top of it.
--
-- TicketSale is thread2/test1.c, each statement between lock and unlock a step. Alternate is
-- thread1/Main.cc, a step from taking the mutex to giving it up; waiting threads may wake for no
-- reason. Thread is thread5/Thread.hpp, with the routine's two parts as steps beside the members.
-- BlockQueue/Main.antt has the names of the threads of thread3/Main.cc.
--
-- Logger is thread5/Logger.hpp: what the clock, `getpid` and the file system give are arguments, and
-- `Sinks` is what the error stream and the files contain. The copies in EchoTcpServer, echo_server,
-- echo_server2 and NetCal differ from it in the spelling of one level at most.
--
-- UdpServer is echo_server/EchoServer.hpp and echo_server2/EchoServer.hpp, EchoClient is
-- their EchoClient.cc and its conversation with either server over a network that loses nothing.
-- NetCal is NetCal/Socket.hpp, TcpServer.hpp and InetAddr.hpp, TcpClient is TCP2fork/tcp_client.cpp,
-- which TCP3pthread repeats; TcpClient/Exchange.antt joins it to the two servers, and
-- TcpClient/Interactive.antt is 11_21/send.cpp. A round of a loop
-- is a function of what the kernel gives, and the buffers' sizes are the source's.
--
-- Pipe is 11_17: Pipe.hpp, the reader server.cpp and the writer client.cpp. SharedMemory is shm, a
-- program that leaves a message in a segment and one that reads it, and 11_18/Shm.hpp. FirstServers
-- is UDP1 and TCP1; their buffer is a value that is filled and cleared.
--
-- No recursion in the models is on fuel: each is on a list of bytes, calls, events or connections,
-- or on a number of remaining rounds.
--
-- Not modelled: EchoTcpServer, which is unfinished; the exercises on processes, unnamed pipes
-- and signals, which call the kernel and print; thread/Thread.hpp, an earlier state of the modelled wrapper;
-- drivers that start threads for ever; copies of modelled files.
pub mod Prelude
pub mod Text
pub mod StringMap
pub mod Sys
pub mod Alternate
pub mod BlockQueue
pub mod DictServer
pub mod EchoClient
pub mod FirstServers
pub mod ForkServer
pub mod Http
pub mod Logger
pub mod NetCal
pub mod Pipe
pub mod RingQueue
pub mod SharedMemory
pub mod TcpClient
pub mod Thread
pub mod ThreadPool
pub mod ThreadServer
pub mod TicketSale
pub mod UdpServer
