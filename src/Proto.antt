-- ===== src/Proto.antt =====
-- proto/*.proto and src/proto/v1.rs: the messages that `tonic` generates, and their conversions to
-- and from `UDPPacket`. An `as u16` on a field of 32 bits keeps the low 16.
pub mod Codec
pub mod RoundTrip
use rog.Prelude.{ℕ, ◌%◌, Option, none, some, [], Result, ok, unwrap, ◌>>=◌}
use rog.Prelude.Word.{Bytes}
use rog.UdpPacket.{UdpPacket}

pub record StreamReq : Type 0 where
  pub auth : Bytes
  pub payload : Option Bytes
  pub dst_addr : Option Bytes
  pub dst_port : Option ℕ

pub record StreamRes : Type 0 where
  pub payload : Bytes

pub record UdpReq : Type 0 where
  pub auth : Bytes
  pub payload : Option Bytes
  pub dst_addr : Option Bytes
  pub dst_port : Option ℕ
  pub src_addr : Option Bytes
  pub src_port : Option ℕ

pub record UdpRes : Type 0 where
  pub payload : Bytes
  pub dst_addr : Option Bytes
  pub dst_port : Option ℕ
  pub src_addr : Option Bytes
  pub src_port : Option ℕ

pub record AddrInfo : Type 0 where
  pub dst_addr : Bytes
  pub dst_port : ℕ
  pub src_addr : Bytes
  pub src_port : ℕ

pub record ManagerReq : Type 0 where
  pub auth : Bytes
  pub tag : Bytes
  pub addr_info : Option AddrInfo
  pub udp : Option ℕ
  pub conn_id : Option Bytes

pub record ManagerRes : Type 0 where
  pub addr_info : Option AddrInfo
  pub udp : Option ℕ
  pub conn_id : Option Bytes

pub record RevStreamReq : Type 0 where
  pub auth : Bytes
  pub payload : Option Bytes
  pub conn_id : Option Bytes

pub record RevStreamRes : Type 0 where
  pub payload : Bytes

pub record RevUdpReq : Type 0 where
  pub auth : Bytes
  pub payload : Option Bytes
  pub addr_info : Option AddrInfo
  pub conn_id : Option Bytes

pub record RevUdpRes : Type 0 where
  pub payload : Bytes
  pub addr_info : Option AddrInfo

abbrev pub as_u16 : ℕ → ℕ
as_u16 n = n % 65536

-- `Option::unwrap_or_default` on bytes.
abbrev pub unwrap_or_default : Option Bytes → Bytes
unwrap_or_default none = []
unwrap_or_default (some bs) = bs

-- A conversion that panics on a missing field, and never gives its error `()`.
unfoldable pub udp_req_try_into : UdpReq → Result UdpPacket
udp_req_try_into r = do
  dst_addr ← unwrap r.dst_addr
  dst_port ← unwrap r.dst_port
  src_addr ← unwrap r.src_addr
  src_port ← unwrap r.src_port
  payload ← unwrap r.payload
  ok (record {
    meta = record {
      dst_addr = dst_addr;
      dst_port = as_u16 dst_port;
      src_addr = src_addr;
      src_port = as_u16 src_port;
    };
    payload = payload;
  })

unfoldable pub udp_req_from_packet : UdpPacket → Bytes → UdpReq
udp_req_from_packet packet auth = record {
  auth = auth;
  payload = some packet.payload;
  dst_addr = some packet.dst_addr;
  dst_port = some packet.dst_port;
  src_addr = some packet.src_addr;
  src_port = some packet.src_port;
}

unfoldable pub udp_res_try_into : UdpRes → Result UdpPacket
udp_res_try_into r = do
  dst_addr ← unwrap r.dst_addr
  dst_port ← unwrap r.dst_port
  src_addr ← unwrap r.src_addr
  src_port ← unwrap r.src_port
  ok (record {
    meta = record {
      dst_addr = dst_addr;
      dst_port = as_u16 dst_port;
      src_addr = src_addr;
      src_port = as_u16 src_port;
    };
    payload = r.payload;
  })

unfoldable pub udp_res_try_from : UdpPacket → UdpRes
udp_res_try_from value = record {
  payload = value.payload;
  dst_addr = some value.dst_addr;
  dst_port = some value.dst_port;
  src_addr = some value.src_addr;
  src_port = some value.src_port;
}

-- `let info = self.addr_info.ok_or(())?` and the packet.
abbrev from_info : Option AddrInfo → Bytes → Option UdpPacket
from_info none payload = none
from_info (some info) payload = some (record {
  meta = record {
    dst_addr = info.dst_addr;
    dst_port = as_u16 info.dst_port;
    src_addr = info.src_addr;
    src_port = as_u16 info.src_port;
  };
  payload = payload;
})

abbrev to_info : UdpPacket → AddrInfo
to_info packet = record {
  dst_addr = packet.dst_addr;
  dst_port = packet.dst_port;
  src_addr = packet.src_addr;
  src_port = packet.src_port;
}

-- The reverse messages lack all of the address or none: `none` is the error `()`.
unfoldable pub rev_udp_req_try_into : RevUdpReq → Option UdpPacket
rev_udp_req_try_into r = from_info r.addr_info (unwrap_or_default r.payload)

unfoldable pub rev_udp_req_from_packet : UdpPacket → Bytes → RevUdpReq
rev_udp_req_from_packet packet auth = record {
  auth = auth;
  payload = some packet.payload;
  addr_info = some (to_info packet);
  conn_id = none;
}

unfoldable pub rev_udp_res_try_into : RevUdpRes → Option UdpPacket
rev_udp_res_try_into r = from_info r.addr_info r.payload

unfoldable pub rev_udp_res_try_from : UdpPacket → RevUdpRes
rev_udp_res_try_from value = record { payload = value.payload; addr_info = some (to_info value) }
