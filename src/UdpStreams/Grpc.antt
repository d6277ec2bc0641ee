-- ===== src/UdpStreams/Grpc.antt =====
-- src/stream/grpc_udp_client.rs and grpc_udp_server.rs. The debug lines are left out.
pub mod RoundTrip
use rog.Prelude.{
  [], ◌∷◌, Result, ok, err, other, interrupted, broken_pipe, not, if◌then◌else◌, bytes_eq, ◌>>=◌,
}
use rog.Prelude.Word.{Bytes}
use rog.Prelude.Channel.{Event, message, status, Streaming, Sender, send}
use rog.Proto.{
  UdpReq, UdpRes, udp_req_try_into, udp_req_from_packet, udp_res_try_into, udp_res_try_from,
}
use rog.UdpPacket.{UdpPacket}

pub record ClientWriter : Type 0 where
  pub writer : Sender UdpReq
  pub src_addr : Bytes
  pub auth : Bytes

pub record ClientReader : Type 0 where
  pub reader : Streaming UdpRes
  pub src_addr : Bytes
  pub auth : Bytes

unfoldable pub client_write : UdpPacket → ClientWriter → Result ClientWriter
client_write packet w = do
  let req = udp_req_from_packet packet w.auth
  writer ← send broken_pipe req w.writer
  ok (record w { writer = writer })

next_res : Streaming UdpRes → ClientReader → Result (UdpPacket × ClientReader)
next_res (status e ∷ s) r = err broken_pipe e
next_res (message res ∷ s) r = do udp ← udp_res_try_into res; ok (udp, record r { reader = s })
next_res [] r = err other "stream closed"

unfoldable pub client_read : ClientReader → Result (UdpPacket × ClientReader)
unfolding next_res
client_read r = next_res r.reader r

pub record ServerReader : Type 0 where
  pub reader : Streaming UdpReq
  pub auth : Bytes

pub record ServerWriter : Type 0 where
  pub writer : Sender (Event UdpRes)

next_req : Streaming UdpReq → ServerReader → Result (UdpPacket × ServerReader)
next_req [] r = err other "no more data"
next_req (message data' ∷ s) r =
    if not (bytes_eq r.auth data'.auth)
    then err other "auth mismatch"
    else do packet ← udp_req_try_into data'; ok (packet, record r { reader = s })
next_req (status e ∷ s) r = err interrupted e

unfoldable pub server_read : ServerReader → Result (UdpPacket × ServerReader)
unfolding next_req
server_read r = next_req r.reader r

unfoldable pub server_write : UdpPacket → ServerWriter → Result ServerWriter
server_write packet w = do
  let res = udp_res_try_from packet
  writer ← send interrupted (message res) w.writer
  ok (record w { writer = writer })
