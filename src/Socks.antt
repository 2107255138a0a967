-- ===== src/Socks.antt =====
-- 312552017_np_project4/socks4server: the SOCKS 4 server's messages, firewall and handler.
pub mod Header
pub mod Regex
pub mod Pattern
pub mod Firewall
pub mod Handler
pub mod Relay
