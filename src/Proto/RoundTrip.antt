-- ===== src/Proto/RoundTrip.antt =====
-- The conversions of src/proto/v1.rs, there and back.
use rog.Prelude.{◌%◌, ◌<◌, ◌≡◌, refl, ap, ok, some, arith}
use rog.Prelude.Word.{Bytes}
use rog.UdpPacket.{UdpPacket}
use rog.Proto.{
  udp_req_try_into, udp_req_from_packet, udp_res_try_into, udp_res_try_from, rev_udp_req_try_into,
  rev_udp_req_from_packet, rev_udp_res_try_into, rev_udp_res_try_from, as_u16,
}

as_u16_lt : (n : rog.Prelude.ℕ) → n < 65536 → as_u16 n ≡ n
as_u16_lt n h = omega arith

module _ (p : UdpPacket) (d : p.dst_port < 65536) (s : p.src_port < 65536) where
  pub udp_req-round : (auth : Bytes) → udp_req_try_into (udp_req_from_packet p auth) ≡ ok p
  unfolding udp_req_try_into udp_req_from_packet
  udp_req-round auth = rw (as_u16_lt p.dst_port d, as_u16_lt p.src_port s)

  pub udp_res-round : udp_res_try_into (udp_res_try_from p) ≡ ok p
  unfolding udp_res_try_into udp_res_try_from
  udp_res-round = rw (as_u16_lt p.dst_port d, as_u16_lt p.src_port s)

  pub rev_udp_req-round :
      (auth : Bytes) → rev_udp_req_try_into (rev_udp_req_from_packet p auth) ≡ some p
  unfolding rev_udp_req_try_into rev_udp_req_from_packet
  rev_udp_req-round auth = rw (as_u16_lt p.dst_port d, as_u16_lt p.src_port s)

  pub rev_udp_res-round : rev_udp_res_try_into (rev_udp_res_try_from p) ≡ some p
  unfolding rev_udp_res_try_into rev_udp_res_try_from
  rev_udp_res-round = rw (as_u16_lt p.dst_port d, as_u16_lt p.src_port s)
