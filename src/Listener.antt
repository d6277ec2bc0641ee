-- ===== src/Listener.antt =====
-- src/listener/: the acceptors, which turn a fresh connection into a destination.
pub mod Connection
pub mod Socks5
pub mod PbTcp
pub mod Grpc
pub mod RevGrpc
pub mod Http
pub mod Htss5
