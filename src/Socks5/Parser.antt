-- ===== src/Socks5/Parser.antt =====
-- src/util/socks5/parser.rs: the trait `Socks5MessageParser` as a record of operations on a state,
-- its provided methods, and its two implementations.
use rog.Prelude.{
  ℕ, ◌+◌, ltb, if◌then◌else◌, Result, ok, err, invalid_input, ◌>>=◌, length, take, drop, get_or,
}
use rog.Prelude.Word.{Bytes, from_be}
use rog.RunStream.{Stream, filled}
use rog.RunStream

-- The required method: fill a buffer of `n` bytes.
pub record MessageParser (S : Type 0) : Type 0 where
  pub read_exact : ℕ → S → Result (Bytes × S)

module _ {S : Type 0} ⦃p : MessageParser S⦄ where
  unfoldable pub read_u8 : S → Result (ℕ × S)
  read_u8 s = do (buf, s) ← p.read_exact 1 s; ok (get_or buf 0 0, s)

  unfoldable pub read_u16 : S → Result (ℕ × S)
  read_u16 s = do (buf, s) ← p.read_exact 2 s; ok (from_be buf, s)

  unfoldable pub read_vec : ℕ → S → Result (Bytes × S)
  read_vec n s = p.read_exact n s

-- `StreamParser` drops the number of bytes that `RunStream::read_exact` returns: the buffer keeps
-- its zeros where the connection was closed early.
unfoldable pub stream_read_exact : ℕ → Stream → Result (Bytes × Stream)
stream_read_exact n s = do (got, s) ← RunStream.read_exact RunStream.read n s; ok (filled n got, s)

instance abbrev pub stream_parser : MessageParser Stream
stream_parser = record { read_exact = stream_read_exact }

-- `BytesParser`.
pub record BytesParser : Type 0 where
  pub bytes : Bytes
  pub cursor : ℕ

unfoldable pub bytes_read_exact : ℕ → BytesParser → Result (Bytes × BytesParser)
bytes_read_exact n p =
    if ltb (length p.bytes) (p.cursor + n)
    then err invalid_input "no enough data"
    else ok (take n (drop p.cursor p.bytes), record p { cursor = p.cursor + n })

instance abbrev pub bytes_parser : MessageParser BytesParser
bytes_parser = record { read_exact = bytes_read_exact }
