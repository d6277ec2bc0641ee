-- ===== src/UdpPacket.antt =====
-- src/def.rs, `UDPMeta` and `UDPPacket`: the UDP datagrams of SOCKS5 (RFC 1928, section 7). A
-- `SocketAddr` is the text of its address and its port. `usize` and `isize` have 64 bits, so that
-- the sums on a datagram of at most 65536 bytes do not overflow.
pub mod RoundTrip
use rog.Prelude.{
  ℕ, ◌+◌, ltb, leb, ◌==◌, if◌then◌else◌, not, Option, none, some, List, [], ◌∷◌, ◌++◌, Result, ok,
  err, invalid_data, ◌>>=◌, length, take, drop, get_or, bytes_eq,
}
use rog.Prelude.Word.{Bytes, codes, to_be, from_be}
use rog.Address.{decode_addr, with_port}

pub record UdpMeta : Type 0 where
  pub dst_addr : Bytes
  pub dst_port : ℕ
  pub src_addr : Bytes
  pub src_port : ℕ

pub record UdpPacket : Type 0 where
  pub meta : UdpMeta
  pub open meta use *
  pub payload : Bytes

pub record SocketAddr : Type 0 where
  pub ip : Bytes
  pub port : ℕ

abbrev pub unspecified : Bytes
unspecified = codes "0.0.0.0"

abbrev pub loopback : Bytes
loopback = codes "127.0.0.1"

abbrev pub head : ℕ → Bytes
head port =
    0 ∷ 0 ∷ 0 ∷ 1 ∷ 0 ∷ 0 ∷ 0 ∷ 0 ∷ get_or (to_be 2 port) 0 0 ∷ get_or (to_be 2 port) 1 0 ∷ []

-- The datagrams to send, where to, and the text of the destination.
unfoldable pub reply_bytes : UdpPacket → List Bytes × Bytes × Bytes
unfolding bytes_eq
reply_bytes p = (
  (head p.src_port ++ p.payload) ∷ [],
  with_port (if bytes_eq p.src_addr unspecified then loopback else p.src_addr) p.src_port,
  with_port p.dst_addr p.dst_port,
)

abbrev pub empty_packet : UdpPacket
empty_packet = record {
  meta = record { dst_addr = []; dst_port = 0; src_addr = []; src_port = 0 };
  payload = [];
}

-- `a_len`; `none` is its value -1.
unfoldable pub addr_len : ℕ → Bytes → Option ℕ
addr_len a_typ buf =
    if a_typ == 1
    then some 4
    else if a_typ == 4
    then some 16
    else if a_typ == 3
    then some (get_or buf 4 0)
    else none

-- What follows the check of `a_len < 0`.
unfoldable pub parse_from : ℕ → ℕ → Bytes → SocketAddr → Result UdpPacket
parse_from start a_len buf src_addr =
    if leb (length buf) (start + a_len + 2)
    then err invalid_data "udp parse packet too short2"
    else do
      let dst_addr = take a_len (drop start buf)
      let dst_port = take 2 (drop (start + a_len) buf)
      let payload = drop (start + a_len + 2) buf
      let port = from_be dst_port
      addr ← decode_addr (get_or buf 3 0) dst_addr
      ok (record {
        meta = record {
          dst_addr = addr;
          dst_port = port;
          src_addr = src_addr.ip;
          src_port = src_addr.port;
        };
        payload = payload;
      })

abbrev pub with_len : Option ℕ → (ℕ → Result UdpPacket) → Result UdpPacket
with_len none k = err invalid_data "udp parse invalid addr type"
with_len (some a_len) k = k a_len

unfoldable pub parse : Bytes → SocketAddr → Result UdpPacket
unfolding addr_len
parse buf src_addr =
    if ltb (length buf) 5
    then err invalid_data "udp parse packet too short"
    else if not (get_or buf 2 0 == 0)
    then ok empty_packet
    else let a_typ = get_or buf 3 0 in
      let start : ℕ = if a_typ == 3 then 5 else 4 in
      with_len (addr_len a_typ buf) (λ a_len. parse_from start a_len buf src_addr)
