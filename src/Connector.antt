-- ===== src/Connector.antt =====
-- src/connector/: the ways to reach a destination through another node.
pub mod PbTcp
pub mod Grpc
pub mod RevGrpc
