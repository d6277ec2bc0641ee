-- ===== src/UdpStreams/RevGrpc.antt =====
-- src/stream/rev_grpc_udp_client.rs and rev_grpc_udp_server.rs.
pub mod RoundTrip
use rog.Prelude.{
  [], ◌∷◌, Result, ok, err, other, broken_pipe, not, if◌then◌else◌, bytes_eq, ok_or, ◌>>=◌,
}
use rog.Prelude.Word.{Bytes}
use rog.Prelude.Channel.{Event, message, status, Streaming, Sender, send}
use rog.Proto.{
  RevUdpReq, RevUdpRes, rev_udp_req_try_into, rev_udp_req_from_packet, rev_udp_res_try_into,
  rev_udp_res_try_from,
}
use rog.UdpPacket.{UdpPacket}

pub record ClientWriter : Type 0 where
  pub writer : Sender RevUdpReq
  pub auth : Bytes

pub record ClientReader : Type 0 where
  pub reader : Streaming RevUdpRes

unfoldable pub client_write : UdpPacket → ClientWriter → Result ClientWriter
client_write packet w = do
  let req = rev_udp_req_from_packet packet w.auth
  writer ← send broken_pipe req w.writer
  ok (record w { writer = writer })

next_res : Streaming RevUdpRes → ClientReader → Result (UdpPacket × ClientReader)
next_res (message res ∷ s) r = do
  packet ← ok_or (rev_udp_res_try_into res) other "rev grpc udp res convert error"
  ok (packet, record { reader = s })
next_res (status e ∷ s) r = err broken_pipe e
next_res [] r = err other "rev grpc udp stream closed"

unfoldable pub client_read : ClientReader → Result (UdpPacket × ClientReader)
unfolding next_res
client_read r = next_res r.reader r

pub record ServerReader : Type 0 where
  pub reader : Streaming RevUdpReq
  pub auth : Bytes

pub record ServerWriter : Type 0 where
  pub writer : Sender (Event RevUdpRes)

next_req : Streaming RevUdpReq → ServerReader → Result (UdpPacket × ServerReader)
next_req [] r = err other "rev grpc udp stream closed"
next_req (status e ∷ s) r = err broken_pipe e
next_req (message req ∷ s) r =
    if not (bytes_eq req.auth r.auth) then err other "rev grpc udp auth mismatch" else do
      packet ← ok_or (rev_udp_req_try_into req) other "rev grpc udp req convert error"
      ok (packet, record r { reader = s })

unfoldable pub server_read : ServerReader → Result (UdpPacket × ServerReader)
unfolding next_req
server_read r = next_req r.reader r

unfoldable pub server_write : UdpPacket → ServerWriter → Result ServerWriter
server_write packet w = do
  let res = rev_udp_res_try_from packet
  writer ← send broken_pipe (message res) w.writer
  ok (record w { writer = writer })
