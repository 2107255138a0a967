-- ===== src/Cgi.antt =====
-- 312552017_np_project4/cgiserver/cgi_util.cpp.
pub mod Escape
pub mod Panel
pub mod Console
pub mod Application
pub mod Session
pub mod Query
