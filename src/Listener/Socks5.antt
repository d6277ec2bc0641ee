-- ===== src/Listener/Socks5.antt =====
-- src/listener/socks5.rs: the SOCKS5 acceptor.
pub mod Handshake
use rog.Prelude.{ℕ, Bool, not, if◌then◌else◌, Option, none, Result, ok, err, invalid_input, ◌>>=◌}
use rog.Prelude.Word.{Bytes, codes}
use rog.Address.{RunAddr, try_from}
use rog.Listener.Connection.{Connection, write}
use rog.Socks5.{no_auth}
use rog.Socks5.Hello
use rog.Socks5.Request
use rog.Socks5.Confirm

unfoldable pub handshake : Connection → Result ((RunAddr × Option Bytes) × Connection)
handshake c = do
  let c = record c { protocol_name = codes "socks5" }
  (hello, incoming) ← Hello.parse c.incoming
  if not (Hello.contains hello no_auth)
      then err invalid_input "no available authentication found"
      else do
        c ←
            write (Hello.to_bytes (record { version = hello.version; method = no_auth }))
              (record c { incoming = incoming })
        (req, incoming) ← Request.parse c.incoming
        addr ← try_from req
        ok ((addr, none), record c { incoming = incoming })

unfoldable pub post_handshake : Bool → ℕ → Connection → Result Connection
post_handshake error port c = write (Confirm.to_bytes (Confirm.new error port)) c
