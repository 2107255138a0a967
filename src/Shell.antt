-- ===== src/Shell.antt =====
-- 312552017_np_project2/shell: the shell that each client of the server runs.
pub mod Ring
pub mod Kernel
pub mod Pipes
pub mod Command
pub mod Stream
pub mod Parse
pub mod Run
