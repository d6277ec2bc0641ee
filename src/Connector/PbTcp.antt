-- ===== src/Connector/PbTcp.antt =====
-- src/connector/pb_tcp.rs. `TcpStream::connect` is an argument: the two halves, or its error.
use rog.Prelude.{
  ℕ, ◌==◌, not, Option, none, some, Result, ok, invalid_input, unwrap, ok_or, ◌>>=◌, Reader, Writer,
}
use rog.Prelude.Word.{Bytes, codes}
use rog.Frame.{conn_type_stream, conn_type_udp, write_conn_type, write_frame}
use rog.Crypto.{Cipher, encrypt_field}
use rog.Proto.Codec.{Codec}
use rog.Address.{parse_address}
use rog.Streams.PbTcpClient
use rog.Streams.PbTcpClient.{RunStream}
use rog.UdpStreams.PbTcp.{ClientReader, ClientWriter}

-- The fields of `config::Connector` that are read here.
pub record PbTcpRunConnector : Type 0 where
  pub endpoint : Option Bytes
  pub pw : Option Bytes

unfoldable pub new : PbTcpRunConnector → Result PbTcpRunConnector
new cfg = do
  _ ← ok_or cfg.endpoint invalid_input "pb_tcp connector config is missing 'endpoint'"
  ok cfg

-- What `connect` draws from `OsRng`.
pub record Random : Type 0 where
  pub for_auth : Bytes
  pub for_dst : Bytes
  pub word : ℕ

abbrev pub Dial : Type 0
Dial = Bytes → Result (Reader × Writer)

module _ (c : Cipher) (codec : Codec) (dial : Dial) where
  unfoldable pub connect : Random → PbTcpRunConnector → Bytes → Result RunStream
  connect rnd cfg addr = do
    (host, port) ← parse_address addr
    pw ← unwrap cfg.pw
    endpoint ← unwrap cfg.endpoint
    (reader, writer) ← dial endpoint
    writer ← write_conn_type conn_type_stream writer
    auth ← encrypt_field c rnd.for_auth pw pw
    dst_addr ← encrypt_field c rnd.for_dst host pw
    writer ←
        write_frame rnd.word
          (codec.encode_req (record {
            auth = auth;
            payload = none;
            dst_addr = some dst_addr;
            dst_port = some port;
          }))
          writer
    ok (
        PbTcpClient.set_info
          (λ x. record x {
            protocol_name = codes "pb_tcp";
            dst_port = some port;
            dst_addr = some host;
          })
          (PbTcpClient.new reader writer pw (not (port == 443))))

  unfoldable pub udp_tunnel : PbTcpRunConnector → Result (ClientReader × ClientWriter)
  udp_tunnel cfg = do
    pw ← unwrap cfg.pw
    endpoint ← unwrap cfg.endpoint
    (reader, writer) ← dial endpoint
    writer ← write_conn_type conn_type_udp writer
    ok (record { reader = reader; pw = pw }, record { writer = writer; auth = pw; pw = pw })
