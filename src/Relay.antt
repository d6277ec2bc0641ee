-- ===== src/Relay.antt =====
-- src/object.rs and src/object/: the relays, which copy both directions of a connection until one of them
-- ends.
pub mod Copy
pub mod Connectors
pub mod Tcp
pub mod RawUdp
pub mod Udp
