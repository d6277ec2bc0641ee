-- ===== src/Listener/Htss5.antt =====
-- src/listener/htss5.rs: the acceptor that takes SOCKS5 and HTTP on one port, by the first byte. Its
-- SOCKS5 branch reads each message in one piece; its HTTP branch is the code of src/listener/http.rs.
pub mod Socks
use rog.Prelude.{
  ℕ, ◌==◌, if◌then◌else◌, bytes_eq, Bool, not, Option, none, some, [], ◌∷◌, Result, ok, err,
  invalid_input, ◌>>=◌, drop,
}
use rog.Prelude.Word.{Bytes, codes}
use rog.RunStream.{read}
use rog.Address.{RunAddr, try_from}
use rog.Listener.Connection.{Connection, write}
use rog.Listener.Http.{Urls, tcp_io_buffer_size, handle}
use rog.Socks5.{no_auth}
use rog.Socks5.Hello
use rog.Socks5.Request
use rog.Socks5.Confirm

abbrev pub non_empty : Bytes → Option Bytes
non_empty [] = none
non_empty (b ∷ bs) = some (b ∷ bs)

-- The hello is the first piece of data, and the request the next.
unfoldable pub socks5 : Bytes → Connection → Result ((RunAddr × Option Bytes) × Connection)
socks5 data' c = do
  (hello, _) ← Hello.parse_bytes data'
  if not (Hello.contains hello no_auth)
      then err invalid_input "no available authentication found"
      else do
        c ← write (Hello.to_bytes (record { version = hello.version; method = no_auth })) c
        (data', incoming) ← read tcp_io_buffer_size c.incoming
        (req, readed) ← Request.parse_bytes data'
        let c = record c { incoming = incoming; protocol_name = codes "socks5" }
        addr ← try_from req
        ok ((addr, non_empty (drop readed data')), c)

module _ (urls : Urls) where
  abbrev by_head : Bytes → Bytes → Connection → Result ((RunAddr × Option Bytes) × Connection)
  by_head server_id [] c = err invalid_input "no enough data"
  by_head server_id (head1 ∷ data') c =
      if head1 == 5
      then socks5 (head1 ∷ data') c
      else handle urls server_id (head1 ∷ data') (record c { protocol_name = codes "http" })

  unfoldable pub handshake : Bytes → Connection → Result ((RunAddr × Option Bytes) × Connection)
  unfolding socks5
  handshake server_id c = do
    (data', incoming) ← read tcp_io_buffer_size c.incoming
    by_head server_id data' (record c { incoming = incoming })

unfoldable pub post_handshake : Bool → ℕ → Connection → Result Connection
post_handshake error port c =
    if not (bytes_eq c.protocol_name (codes "socks5"))
    then ok c
    else write (Confirm.to_bytes (Confirm.new error port)) c
