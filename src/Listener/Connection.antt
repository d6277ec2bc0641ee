-- ===== src/Listener/Connection.antt =====
-- A client connection under a handshake: what arrives, what is written back, and the name that
-- `set_info` records.
use rog.Prelude.{Writer, Result, ◌>>=◌, ok, write_all}
use rog.Prelude.Word.{Bytes}
use rog.RunStream.{Stream}

pub record Connection : Type 0 where
  pub incoming : Stream
  pub out : Writer
  pub protocol_name : Bytes

-- `RunStream::write` of a TCP stream.
unfoldable pub write : Bytes → Connection → Result Connection
write bytes c = do out ← write_all bytes c.out; ok (record c { out = out })
