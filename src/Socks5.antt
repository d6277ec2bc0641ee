-- ===== src/Socks5.antt =====
-- src/util/socks5.rs and src/util/socks5/: the SOCKS5 messages of the listeners.
pub mod Parser
pub mod Source
pub mod Hello
pub mod Request
pub mod Confirm

abbrev pub no_auth : rog.Prelude.ℕ
no_auth = 0

abbrev pub cmd_connect : rog.Prelude.ℕ
cmd_connect = 1

abbrev pub cmd_udp : rog.Prelude.ℕ
cmd_udp = 3
