-- ===== src/Proto/Codec.antt =====
-- `prost::Message`: the codec that is generated from proto/*.proto, with the law of its round trip.
use rog.Prelude.{◌≡◌, Result, ok}
use rog.Prelude.Word.{Bytes}
use rog.Proto.{StreamReq, StreamRes, UdpReq, UdpRes}

pub record Codec : Type 0 where
  pub encode_req : StreamReq → Bytes
  pub decode_req : Bytes → Result StreamReq
  pub encode_res : StreamRes → Bytes
  pub decode_res : Bytes → Result StreamRes
  pub encode_udp_req : UdpReq → Bytes
  pub decode_udp_req : Bytes → Result UdpReq
  pub encode_udp_res : UdpRes → Bytes
  pub decode_udp_res : Bytes → Result UdpRes

-- Decoding an encoded message gives it back.
pub record IsCodec (c : Codec) : Type 0 where
  pub stream_req : (m : StreamReq) → c.decode_req (c.encode_req m) ≡ ok m
  pub stream_res : (m : StreamRes) → c.decode_res (c.encode_res m) ≡ ok m
  pub udp_req : (m : UdpReq) → c.decode_udp_req (c.encode_udp_req m) ≡ ok m
  pub udp_res : (m : UdpRes) → c.decode_udp_res (c.encode_udp_res m) ≡ ok m
