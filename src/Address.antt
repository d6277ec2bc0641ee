-- ===== src/Address.antt =====
-- src/util.rs: `RunAddr`, the destination that a handshake yields, and `parse_address` of
-- src/connector/grpc.rs, which takes its text apart again.
pub mod RoundTrip
use rog.Prelude.{
  ℕ, ◌==◌, if◌then◌else◌, Bool, not, Option, none, some, [], ◌∷◌, ◌++◌, Result, ok, err, other,
  invalid_data, ◌>>=◌, length, get_or, String,
}
use rog.Prelude.Word.{Bytes, from_be}
use rog.Text.{to_string, parse_u16, rsplit_once, is_utf8, ipv4_to_string, ipv6_to_string}
use rog.Socks5.{cmd_udp}
use rog.Socks5.Request.{Request}

pub record RunAddr : Type 0 where
  pub addr : Bytes
  pub port : ℕ
  pub udp : Bool

-- `format!("{}:{}", addr, port)`.
abbrev pub with_port : Bytes → ℕ → Bytes
with_port addr port = addr ++ b':' ∷ to_string port

unfoldable pub endpoint : RunAddr → Bytes
endpoint a = with_port a.addr a.port

pub segment : Bytes → ℕ → ℕ
segment addr i = from_be (get_or addr i 0 ∷ get_or addr (rog.Prelude.suc i) 0 ∷ [])

-- The match on the address type, which `UDPPacket::parse` of src/def.rs repeats.
unfoldable pub decode_addr : ℕ → Bytes → Result Bytes
unfolding segment
decode_addr a_typ addr =
    if a_typ == 1
    then (if not (length addr == 4)
        then err other "Not a ipv4"
        else ok (
            ipv4_to_string (get_or addr 0 0) (get_or addr 1 0) (get_or addr 2 0) (get_or addr 3 0)))
    else if a_typ == 3
    then (if is_utf8 addr then ok addr else err other "Not a domain")
    else if a_typ == 4
    then (if not (length addr == 16)
        then err other "Not a ipv6"
        else ok (
            ipv6_to_string (segment addr 0) (segment addr 2) (segment addr 4) (segment addr 6)
              (segment addr 8) (segment addr 10) (segment addr 12) (segment addr 14)))
    else err other "a_type not found"

-- `RunAddr::try_from(&Request)`.
unfoldable pub try_from : Request → Result RunAddr
try_from value = do
  let port = from_be value.dst_port
  addr ← decode_addr value.a_typ value.dst_addr
  ok (record { addr = addr; port = port; udp = value.cmd == cmd_udp })

abbrev or_err {ℓ} : {A : Type ℓ} → Option A → String → Result A
or_err none m = err invalid_data m
or_err (some a) m = ok a

non_empty : Bytes → ℕ → Result (Bytes × ℕ)
non_empty [] port = err invalid_data "host empty error"
non_empty (c ∷ cs) port = ok (c ∷ cs, port)

unfoldable pub parse_address : Bytes → Result (Bytes × ℕ)
unfolding non_empty
parse_address addr = do
  (host, port) ← or_err (rsplit_once b':' addr) "addr error"
  port ← or_err (parse_u16 port) "addr port error"
  non_empty host port
