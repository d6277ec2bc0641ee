-- ===== src/UdpPacket/RoundTrip.antt =====
-- `UDPPacket::parse` of src/def.rs on encoded datagrams, and on what `reply_bytes` sends.
use rog.Prelude.{
  ℕ, ◌+◌, ◌<◌, ◌≡◌, ◌≢◌, refl, ap, ◌∙◌, ltb, leb, ◌==◌, if◌then◌else◌, [], ◌∷◌, ◌++◌, ok, err,
  invalid_data, length, take, drop, get_or, arith, length-append, take-append, drop-append,
  drop-add, le→ltb, true, false,
}
use rog.Prelude.Word.{Bytes, to_be, length-to_be, from_be-to_be}
use rog.Text.{ipv4_to_string, is_utf8}
use rog.Address.RoundTrip.{text, decode_addr-text}
use rog.Socks5.Request.Exact.{AddrType, ipv4, domain, ipv6, code, Fits, addr_field}
use rog.UdpPacket.{
  UdpPacket, SocketAddr, unspecified, empty_packet, head, reply_bytes, parse_from, parse,
}

-- The wire format of a datagram.
abbrev pub encode : ℕ → ℕ → ℕ → AddrType → Bytes → ℕ → Bytes → Bytes
encode rsv₁ rsv₂ frag typ addr port payload =
    rsv₁ ∷ rsv₂ ∷ frag ∷ code typ ∷ (addr_field typ addr ++ (to_be 2 port ++ payload))

abbrev pub packet : Bytes → ℕ → SocketAddr → Bytes → UdpPacket
packet addr port src payload = record {
  meta = record { dst_addr = addr; dst_port = port; src_addr = src.ip; src_port = src.port };
  payload = payload;
}

ends_here : (m n p : ℕ) → m ≡ n + p → leb m n ≡ (p == 0)
ends_here m n p h = ground arith

-- The cuts that `parse_from` makes behind the front of a datagram.
parse_from-append :
    (typ : AddrType) (front addr : Bytes) (port : ℕ) (payload : Bytes) (src : SocketAddr)
    (buf : Bytes)
    → buf ≡ front ++ (addr ++ (to_be 2 port ++ payload))
    → get_or buf 3 0 ≡ code typ
    → Fits typ addr
    → (typ ≡ domain → is_utf8 addr ≡ true)
    → port < 65536
    → parse_from (length front) (length addr) buf src ≡ (
        if length payload == 0
        then err invalid_data "udp parse packet too short2"
        else ok (packet (text typ addr) port src payload))
unfolding parse_from
parse_from-append typ front addr port payload src buf b typ_at f u h =
    let len : length buf ≡ length front + length addr + 2 + length payload = omega (
      arith,
      ap length b,
      length-append front (addr ++ (to_be 2 port ++ payload)),
      length-append addr (to_be 2 port ++ payload),
      length-append (to_be 2 port) payload,
      length-to_be 2 port,
    ) in
    let at_addr : drop (length front) buf ≡ addr ++ (to_be 2 port ++ payload) =
      rw b (drop-append front (addr ++ (to_be 2 port ++ payload))) in
    let at_port : drop (length front + length addr) buf ≡ to_be 2 port ++ payload =
      drop-add (length front) (length addr) buf
      ∙ rw at_addr (drop-append addr (to_be 2 port ++ payload)) in
    let at_payload : drop (length front + length addr + 2) buf ≡ payload =
      drop-add (length front + length addr) 2 buf
      ∙ rw at_port (rw (length-to_be 2 port) at (drop-append (to_be 2 port) payload)) in
    let cut_port : take 2 (to_be 2 port ++ payload) ≡ to_be 2 port =
      rw (length-to_be 2 port) at (take-append (to_be 2 port) payload) in
    rw (
      ends_here (length buf) (length front + length addr + 2) (length payload) len,
      at_addr,
      at_port,
      at_payload,
      typ_at,
      cut_port,
      from_be-to_be 2 port h,
      take-append addr (to_be 2 port ++ payload),
      decode_addr-text typ addr f u,
    )

long_enough :
    (a b c d : ℕ) (addr : Bytes) (port : ℕ) (payload : Bytes)
    → ltb (length (a ∷ b ∷ c ∷ d ∷ (addr ++ (to_be 2 port ++ payload)))) 5 ≡ false
long_enough a b c d addr port payload =
    le→ltb (length (a ∷ b ∷ c ∷ d ∷ (addr ++ (to_be 2 port ++ payload)))) 5 (
      omega (
        arith,
        length-append addr (to_be 2 port ++ payload),
        length-append (to_be 2 port) payload,
        length-to_be 2 port,
      ))

-- A whole datagram (no fragment) with an address of the length that its type wants, in UTF-8 if it
-- is a domain name, and a 16-bit port: `parse` returns the text of the address, the port and the
-- payload, with the sender's address as the source. A datagram with an empty payload is an error.
pub parse-encode_datagram :
    (rsv₁ rsv₂ : ℕ) (typ : AddrType) (addr : Bytes) (port : ℕ) (payload : Bytes) (src : SocketAddr)
    → Fits typ addr
    → (typ ≡ domain → is_utf8 addr ≡ true)
    → port < 65536
    → parse (encode rsv₁ rsv₂ 0 typ addr port payload) src ≡ (
        if length payload == 0
        then err invalid_data "udp parse packet too short2"
        else ok (packet (text typ addr) port src payload))
unfolding parse
parse-encode_datagram rsv₁ rsv₂ ipv4 addr port payload src f u h =
    rw (long_enough rsv₁ rsv₂ 0 1 addr port payload) (
      rw f at
        (parse_from-append ipv4 (rsv₁ ∷ rsv₂ ∷ 0 ∷ 1 ∷ []) addr port payload src _ refl refl f u h))
parse-encode_datagram rsv₁ rsv₂ ipv6 addr port payload src f u h =
    rw (long_enough rsv₁ rsv₂ 0 4 addr port payload) (
      rw f at
        (parse_from-append ipv6 (rsv₁ ∷ rsv₂ ∷ 0 ∷ 4 ∷ []) addr port payload src _ refl refl f u h))
parse-encode_datagram rsv₁ rsv₂ domain addr port payload src f u h =
    rw (long_enough rsv₁ rsv₂ 0 3 (length addr ∷ addr) port payload) (
      parse_from-append domain (rsv₁ ∷ rsv₂ ∷ 0 ∷ 3 ∷ length addr ∷ []) addr port payload src _ refl
        refl f u h)

-- A fragment, which has a third byte other than 0, is no error: it gives the empty packet, whatever
-- the rest of the datagram says.
pub parse_fragment :
    (rsv₁ rsv₂ frag a b : ℕ) (rest : Bytes) (src : SocketAddr)
    → frag ≢ 0
    → parse (rsv₁ ∷ rsv₂ ∷ frag ∷ a ∷ b ∷ rest) src ≡ ok empty_packet
unfolding parse
parse_fragment rsv₁ rsv₂ frag a b rest src ne = ground arith

-- The datagram that `reply_bytes` sends for a packet with a payload and a 16-bit source port parses
-- back to the payload, under the unspecified IPv4 address and the packet's source port; for a packet
-- with an empty payload the parser refuses it.
pub parse-reply_bytes :
    (p : UdpPacket) (src : SocketAddr)
    → p.src_port < 65536
    → (datagram : Bytes) × ((reply_bytes p).0 ≡ datagram ∷ [])
      × (parse datagram src ≡ (
          if length p.payload == 0
          then err invalid_data "udp parse packet too short2"
          else ok (packet unspecified p.src_port src p.payload)))
unfolding reply_bytes ipv4_to_string
parse-reply_bytes p src h = (
  head p.src_port ++ p.payload,
  refl,
  unfold to_be in
      parse-encode_datagram 0 0 ipv4 (0 ∷ 0 ∷ 0 ∷ 0 ∷ []) p.src_port p.payload src refl (λ e. cc) h,
)
