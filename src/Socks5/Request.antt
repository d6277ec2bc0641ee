-- ===== src/Socks5/Request.antt =====
-- src/util/socks5/request.rs: the request that names the destination.
pub mod Exact
use rog.Prelude.{
  ℕ, ◌==◌, if◌then◌else◌, not, ◌&&◌, Option, none, some, [], ◌∷◌, Result, ok, err, other,
  invalid_data, ◌>>=◌,
}
use rog.Prelude.Word.{Bytes, to_be}
use rog.RunStream.{Stream}
use rog.Socks5.{cmd_connect, cmd_udp}
use rog.Socks5.Parser.{
  MessageParser, read_u8, read_u16, read_vec, BytesParser, bytes_parser, stream_parser,
}

pub record Request : Type 0 where
  pub version : ℕ
  pub cmd : ℕ
  pub rsv : ℕ
  pub a_typ : ℕ
  pub dst_addr : Bytes
  pub dst_port : Bytes

-- `a_len`; `none` is its value -1.
unfoldable pub addr_len : ℕ → Option ℕ
addr_len a_typ =
    if a_typ == 1
    then some 4
    else if a_typ == 4
    then some 16
    else if a_typ == 3
    then some 0
    else none

-- `if a_len < 0`.
abbrev pub non_negative : Option ℕ → Result ℕ
non_negative none = err invalid_data "invalid addr type"
non_negative (some a_len) = ok a_len

module _ {S : Type 0} ⦃p : MessageParser S⦄ where
  unfoldable pub read_addr : ℕ → S → Result (Bytes × S)
  read_addr a_len s =
      if not (a_len == 0) then read_vec a_len s else do (len, s) ← read_u8 s; read_vec len s

  unfoldable pub parse_inner : S → Result (Request × S)
  parse_inner s = do
    (version, s) ← read_u8 s
    if not (version == 5) then err other "invalid socks version" else do
      (cmd, s) ← read_u8 s
      if not (cmd == cmd_connect) && not (cmd == cmd_udp)
          then err invalid_data "invalid socks cmd, only CONNECT and UDP ASSOCIATE supported"
          else do
            (rsv, s) ← read_u8 s
            (a_typ, s) ← read_u8 s
            a_len ← non_negative (addr_len a_typ)
            (dst_addr, s) ← read_addr a_len s
            (port, s) ← read_u16 s
            ok (
              record {
                version = version;
                cmd = cmd;
                rsv = rsv;
                a_typ = a_typ;
                dst_addr = dst_addr;
                dst_port = to_be 2 port;
              },
              s,
            )

unfoldable pub parse : Stream → Result (Request × Stream)
parse s = parse_inner s

-- With the number of bytes taken.
unfoldable pub parse_bytes : Bytes → Result (Request × ℕ)
parse_bytes data' = do
  (r, p) ← parse_inner {S = BytesParser} (record { bytes = data'; cursor = 0 })
  ok (r, p.cursor)
