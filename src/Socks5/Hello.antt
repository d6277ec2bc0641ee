-- ===== src/Socks5/Hello.antt =====
-- src/util/socks5/client_hello.rs and server_hello.rs: the negotiation of the method.
pub mod Exact
use rog.Prelude.{
  ℕ, ◌==◌, if◌then◌else◌, Bool, false, not, ◌||◌, [], ◌∷◌, Result, ok, err, invalid_data, ◌>>=◌,
}
use rog.Prelude.Word.{Bytes}
use rog.RunStream.{Stream}
use rog.Socks5.Parser.{MessageParser, read_u8, read_vec, BytesParser, bytes_parser, stream_parser}

pub record ClientHello : Type 0 where
  pub version : ℕ
  pub method_num : ℕ
  pub methods : Bytes

unfoldable pub parse_inner : {S : Type 0} ⦃p : MessageParser S⦄ → S → Result (ClientHello × S)
parse_inner s = do
  (version, s) ← read_u8 s
  if not (version == 5) then err invalid_data "invalid socks version" else do
    (method_num, s) ← read_u8 s
    (methods, s) ← read_vec method_num s
    ok (record { version = version; method_num = method_num; methods = methods }, s)

unfoldable pub parse : Stream → Result (ClientHello × Stream)
parse s = parse_inner s

-- With the number of bytes taken.
unfoldable pub parse_bytes : Bytes → Result (ClientHello × ℕ)
parse_bytes data' = do
  (r, p) ← parse_inner {S = BytesParser} (record { bytes = data'; cursor = 0 })
  ok (r, p.cursor)

has : Bytes → ℕ → Bool
has [] m = false
has (x ∷ xs) m = x == m || has xs m

unfoldable pub contains : ClientHello → ℕ → Bool
unfolding has
contains h method = has h.methods method

pub record ServerHello : Type 0 where
  pub version : ℕ
  pub method : ℕ

unfoldable pub to_bytes : ServerHello → Bytes
to_bytes h = h.version ∷ h.method ∷ []
