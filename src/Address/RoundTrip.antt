-- ===== src/Address/RoundTrip.antt =====
-- `RunAddr::endpoint` and `RunAddr::try_from` of src/util.rs, with `parse_address` of
-- src/connector/grpc.rs.
use rog.Prelude.{
  ◌-◌, ◌+◌, ◌*◌, ℕ, ◌<◌, ◌≡◌, ◌≢◌, refl, ◌∙◌, ◌==◌, Option, none, some, [], ◌∷◌, ◌++◌, ok, get_or,
  arith, Option-cases, inl, inr, >>=-eq-ok, ap, true,
}
use rog.Prelude.Word.{Bytes, from_be-to_be}
use rog.Text.{
  to_string, parse_u16, rsplit_once, is_utf8, ipv4_to_string, ipv6_to_string, parse_digits,
}
use rog.Text.Decimal.{rsplit_once-append, to_string-AllDigits, parse_u16-to_string}
use rog.Socks5.{cmd_udp}
use rog.Socks5.Request.Exact.{AddrType, ipv4, domain, ipv6, code, Fits, request}
use rog.Address.{
  segment, String, RunAddr, endpoint, decode_addr, try_from, or_err, non_empty, parse_address,
}

-- The endpoint text of an address that is not empty, IPv6 text with its colons included, is taken
-- apart into the same address and the same 16-bit port.
pub parse_address-endpoint :
    (a : RunAddr) → a.addr ≢ [] → a.port < 65536 → parse_address (endpoint a) ≡ ok (a.addr, a.port)
unfolding parse_address endpoint
parse_address-endpoint a ne h =
    rw
      (
        rsplit_once-append b':' a.addr (to_string a.port) (omega arith)
            (to_string-AllDigits a.port),
        parse_u16-to_string a.port h,
      )
      (ok_host a.addr ne)
  where
    ok_host : (host : Bytes) → host ≢ [] → non_empty host a.port ≡ ok (host, a.port)
    ok_host [] n = absurd (n refl)
    ok_host (c ∷ cs) n = refl

or_err-eq-ok {ℓ} : {A : Type ℓ} (o : Option A) (m : String) {a : A} → or_err o m ≡ ok a → o ≡ some a
or_err-eq-ok none m h = cc
or_err-eq-ok (some a) m h = cc

rsplit_once-eq-some :
    (sep : ℕ) (xs : Bytes) {before behind : Bytes}
    → rsplit_once sep xs ≡ some (before, behind)
    → xs ≡ before ++ sep ∷ behind
unfolding rsplit_once
rsplit_once-eq-some sep [] h = cc
rsplit_once-eq-some sep (x ∷ xs) {before} {behind} h = elim (Option-cases (rsplit_once sep xs)) [
  | inl e ↦ ground (arith, e)
  | inr ((a, b), e) ↦ ground (arith, e, rsplit_once-eq-some sep xs e)
]

parse_digits-lt :
    (xs : Bytes) (acc v : ℕ) → acc < 65536 → parse_digits 65536 acc xs ≡ some v → v < 65536
unfolding parse_digits
parse_digits-lt [] acc v h e = ground arith
parse_digits-lt (x ∷ xs) acc v h e = ground (arith, parse_digits-lt xs (acc * 10 + (x - b'0')) v)

parse_u16-lt : (xs : Bytes) (v : ℕ) → parse_u16 xs ≡ some v → v < 65536
unfolding parse_u16
parse_u16-lt [] v e = cc
parse_u16-lt (c ∷ []) v e = parse_digits-lt (c ∷ []) 0 v (omega arith) e
parse_u16-lt (c ∷ d ∷ cs) v e =
    ground (arith, parse_digits-lt (d ∷ cs) 0 v, parse_digits-lt (c ∷ d ∷ cs) 0 v)

non_empty-eq-ok :
    (a host : Bytes) (p port : ℕ)
    → non_empty a p ≡ ok (host, port)
    → (host ≢ []) × (a ≡ host) × (p ≡ port)
unfolding non_empty
non_empty-eq-ok [] host p port h = cc
non_empty-eq-ok (c ∷ cs) host p port h = ((λ e. cc), cc, cc)

-- Whatever `parse_address` accepts is a host that is not empty, a colon, and a text that reads as
-- the 16-bit port which it returns.
pub parse_address-eq-ok :
    (s host : Bytes) (port : ℕ)
    → parse_address s ≡ ok (host, port)
    → (host ≢ [])
      × (port < 65536)
      × ((digits : Bytes) × (s ≡ host ++ b':' ∷ digits) × (parse_u16 digits ≡ some port))
unfolding parse_address
parse_address-eq-ok s host port h =
    let ((a, b), e₁, h₁) = >>=-eq-ok (or_err (rsplit_once b':' s) "addr error") _ h in
    let (p, e₂, h₂) = >>=-eq-ok (or_err (parse_u16 b) "addr port error") _ h₁ in
    let (ne, ea, ep) = non_empty-eq-ok a host p port h₂ in
    let split : rsplit_once b':' s ≡ some (a, b) =
      or_err-eq-ok (rsplit_once b':' s) "addr error" e₁ in
    let read : parse_u16 b ≡ some p = or_err-eq-ok (parse_u16 b) "addr port error" e₂ in
    (
      ne,
      omega (arith, parse_u16-lt b p read),
      (b, rsplit_once-eq-some b':' s split ∙ rw ea, read ∙ ap some ep),
    )

-- The text of an address of each type.
abbrev pub text : AddrType → Bytes → Bytes
text ipv4 a = ipv4_to_string (get_or a 0 0) (get_or a 1 0) (get_or a 2 0) (get_or a 3 0)
text domain a = a
text ipv6 a =
    ipv6_to_string (segment a 0) (segment a 2) (segment a 4) (segment a 6) (segment a 8)
      (segment a 10) (segment a 12) (segment a 14)

pub decode_addr-text :
    (typ : AddrType) (addr : Bytes)
    → Fits typ addr
    → (typ ≡ domain → is_utf8 addr ≡ true)
    → decode_addr (code typ) addr ≡ ok (text typ addr)
unfolding decode_addr
decode_addr-text ipv4 addr f u = rw f
decode_addr-text domain addr f u = rw (u refl)
decode_addr-text ipv6 addr f u = rw f

pub try_from-request :
    (cmd rsv : ℕ) (typ : AddrType) (addr : Bytes) (port : ℕ)
    → Fits typ addr
    → (typ ≡ domain → is_utf8 addr ≡ true)
    → port < 65536
    → try_from (request cmd rsv typ addr port)
      ≡ ok (record { addr = text typ addr; port = port; udp = cmd == cmd_udp })
unfolding try_from
try_from-request cmd rsv typ addr port f u h =
    rw (decode_addr-text typ addr f u, from_be-to_be 2 port h)
