-- ===== src/Listener/PbTcp.antt =====
-- src/listener/pb_tcp.rs: what becomes of a connection that was accepted, and the handshake.
pub mod Session
use rog.Prelude.{
  ℕ, ◌==◌, not, if◌then◌else◌, bytes_eq, Option, none, some, Result, ok, err, other, ◌>>=◌, Reader,
  Writer,
}
use rog.Prelude.Word.{Bytes, codes}
use rog.Frame.{conn_type_stream, conn_type_udp, read_conn_type}
use rog.Crypto.{Cipher}
use rog.Proto.Codec.{Codec}
use rog.Address.{RunAddr}
use rog.Streams.PbTcpServer
use rog.Streams.PbTcpServer.{RunStream}
use rog.UdpStreams.PbTcp.{ServerReader, ServerWriter}

-- What is put into the channel of streams, or into the channel of UDP sockets; an unknown type is
-- only logged. An error of the read ends the task of the connection.
pub data Accepted : Type 0 where
  stream : RunStream → Accepted
  udp : Reader → Writer → Bytes → Accepted
  unknown : ℕ → Accepted

unfoldable pub dispatch : Bytes → Reader → Writer → Result Accepted
dispatch auth reader writer = do
  (conn_type, reader) ← read_conn_type reader
  ok (
      if conn_type == conn_type_stream
      then stream (PbTcpServer.new reader writer)
      else if conn_type == conn_type_udp
      then udp reader writer auth
      else unknown conn_type)

-- The two arms of `accept`, on what its channels hold; `none` is a closed channel.
unfoldable pub accept_udp : Option (Reader × Writer × Bytes) → Result (ServerReader × ServerWriter)
accept_udp none = err other "udp receiver closed"
accept_udp (some (reader, writer, pw)) =
    ok (record { reader = reader; auth = pw; pw = pw }, record { writer = writer; pw = pw })

unfoldable pub accept_stream : Option RunStream → Result RunStream
accept_stream none = err other "stream receiver closed"
accept_stream (some s) = ok s

abbrev authorized :
    Bytes → Option (RunAddr × Bytes) → RunStream → Result ((RunAddr × Option Bytes) × RunStream)
authorized self_auth none s = err other "handshake failed"
authorized self_auth (some (addr, auth)) s =
    if not (bytes_eq auth self_auth) then err other "invalid auth" else ok ((addr, none), s)

module _ (c : Cipher) (codec : Codec) where
  unfoldable pub handshake : Bytes → RunStream → Result ((RunAddr × Option Bytes) × RunStream)
  handshake self_auth s = do
    let s = PbTcpServer.set_info (λ x. record x { protocol_name = codes "pb_tcp" }) s
    (r, s) ← PbTcpServer.handshake c codec self_auth s
    authorized self_auth r s
