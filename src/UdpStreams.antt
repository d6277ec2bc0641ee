-- ===== src/UdpStreams.antt =====
-- src/stream/*udp*.rs: readers and writers of `UDPPacket`s inside messages.
pub mod Sequence
pub mod Grpc
pub mod RevGrpc
pub mod PbTcp
