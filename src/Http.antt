-- ===== src/Http.antt =====
-- 312552017_np_project3/cgi_server.cpp, the HTTP server that is one process, and what it uses of
-- 312552017_np_project3/cgiserver/cgi_util.cpp.
pub mod Boost
pub mod Escape
pub mod Query
pub mod NpShell
pub mod Session
