-- ===== src/Socks5/Request/Exact.antt =====
-- `Request::parse_bytes` and `Request::parse` of src/util/socks5/request.rs on a well-formed request.
use rog.Prelude.{
  false, ◌&&◌, length-append, length-drop, ◌==◌, some, not, ℕ, ◌<◌, ◌≡◌, ◌≢◌, refl, ap, ◌∙◌, ◌∷◌,
  ◌++◌, Result, ok, ◌>>=◌, length, arith, ◌⊎◌, append_assoc,
}
use rog.Prelude.Word.{Bytes, to_be}
use rog.RunStream.{Stream}
use rog.RunStream.Exact.{bytes, IsLive}
use rog.Socks5.{cmd_connect, cmd_udp}
use rog.Socks5.Parser.{read_u16, MessageParser, bytes_parser, stream_parser}
use rog.Socks5.Source.{
  IsSource, Gives, read_u8-Gives, read_u16-Gives, read_vec-Gives, bytes_source, stream_source,
}
use rog.Socks5.Request.{addr_len, Request, parse_inner, read_addr, parse, parse_bytes}

-- The address types of RFC 1928, section 4.
pub data AddrType : Type 0 where
  ipv4 domain ipv6 : AddrType

abbrev pub code : AddrType → ℕ
code ipv4 = 1
code domain = 3
code ipv6 = 4

-- The address field: a domain name stands behind its length.
abbrev pub addr_field : AddrType → Bytes → Bytes
addr_field domain addr = length addr ∷ addr
addr_field ipv4 addr = addr
addr_field ipv6 addr = addr

abbrev pub Fits : AddrType → Bytes → Type 0
Fits ipv4 addr = length addr ≡ 4
Fits domain addr = length addr < 256
Fits ipv6 addr = length addr ≡ 16

abbrev pub request : ℕ → ℕ → AddrType → Bytes → ℕ → Request
request cmd rsv typ addr port = record {
  version = 5;
  cmd = cmd;
  rsv = rsv;
  a_typ = code typ;
  dst_addr = addr;
  dst_port = to_be 2 port;
}

-- The wire format of a request.
abbrev pub encode : ℕ → ℕ → AddrType → Bytes → ℕ → Bytes
encode cmd rsv typ addr port = 5 ∷ cmd ∷ rsv ∷ code typ ∷ (addr_field typ addr ++ to_be 2 port)

abbrev fixed_len : AddrType → ℕ
fixed_len ipv4 = 4
fixed_len domain = 0
fixed_len ipv6 = 16

addr_len-code : (typ : AddrType) → addr_len (code typ) ≡ some (fixed_len typ)
unfolding addr_len
addr_len-code ipv4 = refl
addr_len-code domain = refl
addr_len-code ipv6 = refl

allowed_cmd :
    (cmd : ℕ)
    → (cmd ≡ cmd_connect) ⊎ (cmd ≡ cmd_udp)
    → (not (cmd == cmd_connect) && not (cmd == cmd_udp)) ≡ false
allowed_cmd cmd h = ground arith

module _ {S : Type 0} (p : MessageParser S) (src : IsSource p) where
  open src use {view, Inv, CanRead, can_read_suc}

  read_addr-Gives :
      (typ : AddrType) (addr ys : Bytes) (s : S)
      → Fits typ addr
      → (typ ≡ domain → CanRead (length addr))
      → Inv s
      → view s ≡ addr_field typ addr ++ ys
      → Gives p src (read_addr ⦃p = p⦄ (fixed_len typ) s) addr ys
  unfolding read_addr
  read_addr-Gives ipv4 addr ys s f c i v = read_vec-Gives p src 4 addr ys s (can_read_suc 3) f i v
  read_addr-Gives ipv6 addr ys s f c i v = read_vec-Gives p src 16 addr ys s (can_read_suc 15) f i v
  read_addr-Gives domain addr ys s f c i v =
      let (s₁, e₁, v₁, i₁) = read_u8-Gives p src (length addr) (addr ++ ys) s i v in
      let (s₂, e₂, v₂, i₂) = read_vec-Gives p src (length addr) addr ys s₁ (c refl) refl i₁ v₁ in
      (s₂, rw (e₁, e₂), v₂, i₂)

  -- What `parse_inner` does behind the address type.
  abbrev pub addr_and_port : ℕ → ℕ → AddrType → S → Result (Request × S)
  addr_and_port cmd rsv typ s = do
    (dst_addr, s) ← read_addr ⦃p = p⦄ (fixed_len typ) s
    (port, s) ← read_u16 ⦃p = p⦄ s
    ok (request cmd rsv typ dst_addr port, s)

  pub parse_inner_header :
      (cmd rsv : ℕ) (typ : AddrType) (tail : Bytes) (s : S)
      → (cmd ≡ cmd_connect) ⊎ (cmd ≡ cmd_udp)
      → Inv s
      → view s ≡ 5 ∷ cmd ∷ rsv ∷ code typ ∷ tail
      → (s' : S) × (parse_inner ⦃p = p⦄ s ≡ addr_and_port cmd rsv typ s')
        × (view s' ≡ tail)
        × (Inv s')
  unfolding parse_inner
  parse_inner_header cmd rsv typ tail s hc i v =
      let (s₁, e₁, v₁, i₁) = read_u8-Gives p src 5 (cmd ∷ rsv ∷ code typ ∷ tail) s i v in
      let (s₂, e₂, v₂, i₂) = read_u8-Gives p src cmd (rsv ∷ code typ ∷ tail) s₁ i₁ v₁ in
      let (s₃, e₃, v₃, i₃) = read_u8-Gives p src rsv (code typ ∷ tail) s₂ i₂ v₂ in
      let (s₄, e₄, v₄, i₄) = read_u8-Gives p src (code typ) tail s₃ i₃ v₃ in
      (s₄, rw (e₁, e₂, allowed_cmd cmd hc, e₃, e₄, addr_len-code typ), v₄, i₄)

  pub parse_inner-Gives :
      (cmd rsv : ℕ) (typ : AddrType) (addr : Bytes) (port : ℕ) (ys : Bytes) (s : S)
      → (cmd ≡ cmd_connect) ⊎ (cmd ≡ cmd_udp)
      → Fits typ addr
      → (typ ≡ domain → CanRead (length addr))
      → port < 65536
      → Inv s
      → view s ≡ encode cmd rsv typ addr port ++ ys
      → Gives p src (parse_inner ⦃p = p⦄ s) (request cmd rsv typ addr port) ys
  parse_inner-Gives cmd rsv typ addr port ys s hc f c hp i v =
      let (s₄, e₄, v₄, i₄) =
        parse_inner_header cmd rsv typ ((addr_field typ addr ++ to_be 2 port) ++ ys) s hc i v in
      let (s₅, e₅, v₅, i₅) =
        read_addr-Gives typ addr (to_be 2 port ++ ys) s₄ f c i₄
          (v₄ ∙ append_assoc (addr_field typ addr) (to_be 2 port) ys) in
      let (s₆, e₆, v₆, i₆) = read_u16-Gives p src port ys s₅ hp i₅ v₅ in
      (s₆, e₄ ∙ rw (e₅, e₆), v₆, i₆)

-- Let the data begin with the encoding (RFC 1928) of a CONNECT or UDP ASSOCIATE request with an
-- address of the length that its type wants and a 16-bit port. `parse_bytes` returns that request
-- and the length of its encoding, whatever follows.
pub parse_bytes-encode :
    (cmd rsv : ℕ) (typ : AddrType) (addr : Bytes) (port : ℕ) (rest : Bytes)
    → (cmd ≡ cmd_connect) ⊎ (cmd ≡ cmd_udp)
    → Fits typ addr
    → port < 65536
    → parse_bytes (encode cmd rsv typ addr port ++ rest)
      ≡ ok (request cmd rsv typ addr port, length (encode cmd rsv typ addr port))
unfolding parse_bytes
parse_bytes-encode cmd rsv typ addr port rest hc f hp =
    let data' = encode cmd rsv typ addr port ++ rest in
    let (s, e, v, i) =
      parse_inner-Gives bytes_parser (bytes_source data') cmd rsv typ addr port rest
        (record { bytes = data'; cursor = 0 }) hc f (λ _. tt) hp (refl, omega arith) refl in
    let end : s.cursor ≡ length (encode cmd rsv typ addr port) = omega (
      arith,
      ap length v,
      ap length i.0,
      i.1,
      length-drop s.cursor s.bytes,
      length-append (encode cmd rsv typ addr port) rest,
    ) in
    rw e (ap (λ n. ok (request cmd rsv typ addr port, n)) end)

-- A SOCKS5 request for `connect` or UDP is encoded: version, command, reserved byte, type and bytes of
-- the address, with the length in front of a domain name, and the port. It stands at the front of a
-- connection that does not fail, however the bytes are cut into pieces; a domain name is not empty, and
-- the port is below 65536. Then `parse` returns the request, and the bytes behind it stay on the
-- connection.
pub parse-encode :
    (cmd rsv : ℕ) (typ : AddrType) (addr : Bytes) (port : ℕ) (rest : Bytes) (s : Stream)
    → (cmd ≡ cmd_connect) ⊎ (cmd ≡ cmd_udp)
    → Fits typ addr
    → length addr ≢ 0
    → port < 65536
    → IsLive s
    → bytes s ≡ encode cmd rsv typ addr port ++ rest
    → (s' : Stream) × (parse s ≡ ok (request cmd rsv typ addr port, s'))
      × (bytes s' ≡ rest)
      × (IsLive s')
unfolding parse
parse-encode cmd rsv typ addr port rest s hc f ne hp live b =
    parse_inner-Gives stream_parser stream_source cmd rsv typ addr port rest s hc f (λ _. ne) hp
      live b
