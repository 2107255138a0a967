-- ===== src/Npshell.antt =====
-- The shell of project 1: 312552017_np_project1/npshell.cpp and shell/.
pub mod Command
pub mod Parse
pub mod Run
pub mod Session
pub mod Promote
