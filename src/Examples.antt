-- ===== src/Examples.antt =====
-- What is proved, at concrete inputs.
mod Server
mod Npshell
mod Shared
mod Socks
mod Shell
mod Filters
mod Cgi
mod Http
mod Fifo
mod Select
mod Simple
