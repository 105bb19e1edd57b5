-- ===== src/Http.antt =====
-- http-server-cpp: an HTTP server with cookies and login sessions.
pub mod Cookie
pub mod Session
pub mod Server
