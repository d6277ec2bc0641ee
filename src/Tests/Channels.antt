-- ===== src/Tests/Channels.antt =====
-- Runs of the gRPC streams.
use rog.Prelude.{◌≡◌, refl, false, List, [], ◌∷◌, ◌++◌, ok, err, other, arith, ℕ}
use rog.Prelude.Word.{Bytes, codes}
use rog.Prelude.Channel.{message, Sender}
use rog.RunStream.{read, read_exact, arrives}
use rog.RunStream.Simulation.{Same}
use rog.Streams.{default}
use rog.Streams.Cached.{Cache, cleared, read_cached}
use rog.Streams.Refines.{Related, read_cached-Same}
use rog.Streams.Channels.{pieces, map, sends}
use rog.Streams.GrpcServer
use rog.Streams.GrpcClient
use rog.Streams.RevGrpcServer
use rog.Streams.RevGrpcClient
use rog.Streams.Grpc.{upload}
use rog.UdpPacket.{UdpPacket}
use rog.UdpStreams.Sequence.{reads}
use rog.UdpStreams.Grpc
use rog.UdpStreams.RevGrpc
use rog.UdpStreams.Grpc.RoundTrip.{grpc_udp_upload}

abbrev fresh : {M : Type 0} → Sender M
fresh = record { sent = []; closed = false }

abbrev payloads : List Bytes
payloads = (1 ∷ 2 ∷ 3 ∷ []) ∷ [] ∷ (4 ∷ []) ∷ []

-- A cache that holds two more bytes.
abbrev half_read : Cache
half_read = record { cache = 1 ∷ 2 ∷ 3 ∷ []; cache_pos = 1 }

end_next : GrpcServer.next_payload [] ≡ err other "no more data"
unfolding GrpcServer.next_payload
end_next = refl

read_cached-Same_example :
    Same
      (Related GrpcServer.next_payload)
      (read 9 (arrives (2 ∷ 3 ∷ []) ∷ pieces []))
      (read_cached GrpcServer.next_payload 9 half_read [])
read_cached-Same_example =
    read_cached-Same GrpcServer.next_payload 9 (arrives (2 ∷ 3 ∷ []) ∷ pieces []) half_read []
      (omega arith, (pieces [], refl, end_next))

abbrev upload_writer : GrpcClient.WriteHalf
upload_writer = record { writer = fresh }

abbrev upload_half : GrpcServer.ReadHalf
upload_half = record { reader = []; cached = cleared }

abbrev upload_stream : GrpcServer.RunStream
upload_stream = record { reader = []; writer = fresh; cached = cleared; info = default }

upload_example :
    (w' : GrpcClient.WriteHalf) × (sends GrpcClient.write_half payloads upload_writer ≡ ok w')
    × (let events = map message w'.writer.sent in
        (Same
          (λ t h. Related GrpcServer.next_payload t (h.cached, h.reader))
          (read 2 (pieces payloads))
          (GrpcServer.read_half 2 (record upload_half { reader = events; cached = cleared })))
        × (Same
            (λ t r. Related GrpcServer.next_payload t (r.cached, r.reader))
            (read_exact read 2 (pieces payloads))
            (read_exact GrpcServer.read 2
              (record upload_stream { reader = events; cached = cleared }))))
upload_example = upload payloads 2 upload_writer upload_half upload_stream refl refl

abbrev download_writer : GrpcServer.WriteHalf
download_writer = record { writer = fresh }

abbrev download_half : GrpcClient.ReadHalf
download_half = record { reader = []; cached = cleared }

abbrev download_stream : GrpcClient.RunStream
download_stream = record { reader = []; writer = fresh; cached = cleared; info = default }

abbrev rev_upload_writer : RevGrpcClient.WriteHalf
rev_upload_writer = record { writer = fresh }

abbrev rev_upload_half : RevGrpcServer.ReadHalf
rev_upload_half = record { reader = []; cached = cleared }

abbrev rev_upload_stream : RevGrpcServer.RunStream
rev_upload_stream = record {
  reader = [];
  writer = fresh;
  cached = cleared;
  dst_addr = [];
  dst_port = 0;
  info = default;
}

abbrev rev_download_writer : RevGrpcServer.WriteHalf
rev_download_writer = record { writer = fresh }

abbrev rev_download_half : RevGrpcClient.ReadHalf
rev_download_half = record { reader = []; cached = cleared }

abbrev rev_download_stream : RevGrpcClient.RunStream
rev_download_stream = record { reader = []; writer = fresh; cached = cleared; info = default }

abbrev query : UdpPacket
query = record {
  meta = record {
    dst_addr = codes "8.8.8.8";
    dst_port = 53;
    src_addr = codes "10.0.0.1";
    src_port = 5353;
  };
  payload = 1 ∷ [];
}

abbrev two_queries : List UdpPacket
two_queries = query ∷ query ∷ []

two_queries_ports : rog.UdpStreams.Sequence.AllPorts two_queries
two_queries_ports = ((omega arith, omega arith), ((omega arith, omega arith), tt))

abbrev first : Bytes → ℕ
first [] = 0
first (b ∷ bs) = b

abbrev grpc_udp_writer : Grpc.ClientWriter
grpc_udp_writer = record { writer = fresh; src_addr = []; auth = 7 ∷ [] }

abbrev grpc_udp_server : Grpc.ServerReader
grpc_udp_server = record { reader = []; auth = 7 ∷ [] }

abbrev grpc_udp_other : Grpc.ServerReader
grpc_udp_other = record { reader = []; auth = 8 ∷ [] }

abbrev grpc_udp_answers : Grpc.ServerWriter
grpc_udp_answers = record { writer = fresh }

abbrev grpc_udp_reader : Grpc.ClientReader
grpc_udp_reader = record { reader = []; src_addr = []; auth = [] }

grpc_udp_upload_example :
    (w' : Grpc.ClientWriter) × (sends Grpc.client_write two_queries grpc_udp_writer ≡ ok w')
    × (reads Grpc.server_read 2
          (record grpc_udp_server { reader = map message w'.writer.sent ++ [] })
        ≡ ok (two_queries, grpc_udp_server))
grpc_udp_upload_example =
    grpc_udp_upload two_queries [] grpc_udp_writer grpc_udp_server two_queries_ports refl refl refl

abbrev rev_grpc_udp_writer : RevGrpc.ClientWriter
rev_grpc_udp_writer = record { writer = fresh; auth = 7 ∷ [] }

abbrev rev_grpc_udp_server : RevGrpc.ServerReader
rev_grpc_udp_server = record { reader = []; auth = 7 ∷ [] }

abbrev rev_grpc_udp_other : RevGrpc.ServerReader
rev_grpc_udp_other = record { reader = []; auth = 8 ∷ [] }

abbrev rev_grpc_udp_answers : RevGrpc.ServerWriter
rev_grpc_udp_answers = record { writer = fresh }

abbrev rev_grpc_udp_reader : RevGrpc.ClientReader
rev_grpc_udp_reader = record { reader = [] }
