-- ===== src/Connector/Grpc.antt =====
-- src/connector/grpc.rs. What tonic does is an argument: the attempts to connect, and the two calls of the
-- service, each with the sender that feeds its request.
use rog.Prelude.{
  ℕ, zero, suc, Option, none, some, Result, ok, err, panics, other, invalid_input, unwrap, ok_or,
  ◌>>=◌,
}
use rog.Prelude.Word.{Bytes, codes}
use rog.Prelude.Channel.{Streaming, Sender, send}
use rog.Proto.{StreamReq, StreamRes, UdpReq, UdpRes}
use rog.Address.{parse_address}
use rog.Streams.{StreamInfo}
use rog.Streams.GrpcClient
use rog.Streams.GrpcClient.{RunStream}
use rog.UdpStreams.Grpc.{ClientReader, ClientWriter}

-- `RogServiceClient`; `None` is a status.
pub record Client : Type 0 where
  pub stream : Option (Streaming StreamRes × Sender StreamReq)
  pub udp : Option (Streaming UdpRes × Sender UdpReq)

-- The fields of `config::Connector` that are read here.
pub record Config : Type 0 where
  pub endpoint : Option Bytes
  pub pw : Option Bytes

pub record GrpcRunConnector : Type 0 where
  pub client : Client
  pub cfg : Config

-- The attempts that are left, the next one with its number.
attempts : (Bytes → ℕ → Option Client) → Config → Bytes → ℕ → ℕ → Result GrpcRunConnector
attempts dial cfg endpoint i zero = err other "transport error"
attempts dial cfg endpoint i (suc left) = elim (dial endpoint i) [
  | some client ↦ ok (record { client = client; cfg = cfg })
  | none ↦ attempts dial cfg endpoint (suc i) left
]

unfoldable pub new : (Bytes → ℕ → Option Client) → Config → Result GrpcRunConnector
unfolding attempts
new dial cfg = do
  endpoint ← ok_or cfg.endpoint invalid_input "gRPC connector config is missing 'endpoint'"
  attempts dial cfg endpoint 1 3

abbrev pub opening : Bytes → Bytes → ℕ → StreamReq
opening pw host port = record {
  auth = pw;
  payload = none;
  dst_addr = some host;
  dst_port = some port;
}

abbrev pub sent_or : Result (Sender StreamReq) → Result (Sender StreamReq)
sent_or (ok tx) = ok tx
sent_or (err k m) = err other "failed to send auth request"
sent_or panics = panics

abbrev pub with_info : Bytes → ℕ → StreamInfo → StreamInfo
with_info host port x = record x {
  protocol_name = codes "grpc";
  dst_port = some port;
  dst_addr = some host;
}

unfoldable pub connect : GrpcRunConnector → Bytes → Result RunStream
connect self addr = do
  (host, port) ← parse_address addr
  (resp, tx) ← ok_or self.client.stream other "gRPC connector failed to open stream"
  pw ← unwrap self.cfg.pw
  tx ← sent_or (send other (opening pw host port) tx)
  ok (GrpcClient.set_info (with_info host port) (GrpcClient.new resp tx))

unfoldable pub udp_tunnel : GrpcRunConnector → Bytes → Result (Option (ClientReader × ClientWriter))
udp_tunnel self src_addr = do
  (resp, tx) ← ok_or self.client.udp other "grpc stream error"
  pw ← unwrap self.cfg.pw
  ok (
      some (
        record { reader = resp; src_addr = src_addr; auth = pw },
        record { writer = tx; src_addr = src_addr; auth = pw },
      ))
