-- ===== src/Net.antt =====
-- net: the addresses in a handshake, and the SYN cookie.
pub mod Ip
pub mod Cookie
