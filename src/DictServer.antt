-- ===== src/DictServer.antt =====
-- Project_TCPServer_Plus: a TCP server that translates words, over select, poll or epoll.
pub mod Log
pub mod Utils
pub mod Socket
pub mod Connection
pub mod Reactor
pub mod Main
mod Tests
