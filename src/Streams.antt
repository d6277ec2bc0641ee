-- ===== src/Streams.antt =====
-- src/stream/: the streams that carry a connection inside messages. Each file there has a read half,
-- a write half and the two together; the reads of all of them cut messages by a cache in the same way.
pub mod Cached
pub mod Udp
pub mod Refines
pub mod GrpcServer
pub mod GrpcClient
pub mod RevGrpcServer
pub mod RevGrpcClient
pub mod PbTcpServer
pub mod PbTcpClient
pub mod Channels
pub mod Grpc
pub mod RevGrpc
pub mod PbTcp
use rog.Prelude.{ℕ, Bool, Option, none, []}
use rog.Prelude.Word.{Bytes}

-- src/def.rs, `StreamInfo`.
pub record StreamInfo : Type 0 where
  pub protocol_name : Bytes
  pub src_addr : Option Bytes
  pub src_port : Option ℕ
  pub dst_addr : Option Bytes
  pub dst_port : Option ℕ
  pub udp : Option Bool

abbrev pub default : StreamInfo
default = record {
  protocol_name = [];
  src_addr = none;
  src_port = none;
  dst_addr = none;
  dst_port = none;
  udp = none;
}
