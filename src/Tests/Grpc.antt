-- ===== src/Tests/Grpc.antt =====
-- A run of the gRPC connector against the listener.
use rog.Prelude.{
  ◌≡◌, refl, false, if◌then◌else◌, bytes_eq, none, some, [], ◌∷◌, ◌++◌, ok, err, other,
}
use mathlib.Core.List.{map}
use rog.Prelude.Word.{codes}
use rog.Prelude.Channel.{message, send}
use rog.Proto.{StreamReq}
use rog.Address.{parse_address}
use rog.Text.{parse_u16, rsplit_once}
use rog.Streams.GrpcClient
use rog.Streams.GrpcServer
use rog.Connector.Grpc.{GrpcRunConnector, opening, with_info, connect}
use rog.Listener.Grpc.{Server, fresh, stream, handshake}
use rog.Listener.Grpc.Session.{grpc_session}

abbrev connector : GrpcRunConnector
connector = record {
  client = record { stream = some ([], fresh); udp = none };
  cfg = record { endpoint = none; pw = some (codes "pw") };
}

abbrev server : Server
server = record { sender = fresh; udp_sender = fresh; pw = some (codes "pw") }

abbrev client : GrpcClient.RunStream
client =
    GrpcClient.set_info (with_info (codes "a") 80) (
      GrpcClient.new []
        (record { sent = opening (codes "pw") (codes "a") 80 ∷ []; closed = false }))

abbrev more : StreamReq
more = GrpcClient.request (7 ∷ [])

grpc_session_example :
    (s : GrpcServer.RunStream) × (stream
        (map message client.writer.sent ++ message more ∷ [])
        server
      ≡ ok (record server { sender = record { sent = s ∷ []; closed = false } }))
    × ((s' : GrpcServer.RunStream) × (handshake (codes "pw") s ≡ (
          if bytes_eq (codes "pw") (codes "pw")
          then ok ((record { addr = codes "a"; port = 80; udp = false }, none), s')
          else err other "invalid auth"))
        × (s'.reader ≡ message more ∷ []))
unfolding connect send parse_address parse_u16 rsplit_once GrpcClient.new GrpcClient.set_info
grpc_session_example =
    grpc_session connector server (codes "a:80") (codes "a") (codes "pw") (codes "pw") 80 [] fresh
      client (message more ∷ []) refl refl (refl, refl) refl refl
