-- ===== src/Server.antt =====
-- 312552017_np_project2/server/chatServer.cpp: the users, their messages and the pipes between
-- them, as the single-process server np_single_proc runs it (CONFIG_SHM is not defined).
pub mod State
pub mod Users
pub mod Messages
pub mod UserPipe
pub mod Fifo
pub mod Tables
pub mod Shared
pub mod Session
pub mod Select
pub mod Simple
