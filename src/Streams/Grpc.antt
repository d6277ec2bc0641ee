-- ===== src/Streams/Grpc.antt =====
-- src/stream/grpc_client.rs and grpc_server.rs at the two ends of a channel.
use rog.Prelude.{ℕ, interrupted, ◌≡◌, refl, ◌∙◌, ◌≤◌, arith, false, List, [], ◌∷◌, ok}
use rog.Prelude.Word.{Bytes}
use rog.Prelude.Channel.{message}
use rog.RunStream.{Stream, read, read_exact}
use rog.RunStream.Simulation.{Same, read_exact-Same}
use rog.Streams.Cached.{cleared}
use rog.Streams.Refines.{Yields, Related, stream_read-Same}
use rog.Streams.Channels.{pieces, map, sends, sends-ok}
use rog.Streams.GrpcClient
use rog.Streams.GrpcServer

refl_le : 0 ≤ 0
refl_le = omega arith

-- GrpcClient to GrpcServer.
upload-Yields :
    (ps : List Bytes)
    → Yields GrpcServer.next_payload (map message (map GrpcClient.request ps)) (pieces ps)
unfolding GrpcServer.next_payload
upload-Yields [] = refl
upload-Yields (p ∷ ps) = (map message (map GrpcClient.request ps), refl, upload-Yields ps)

upload_read-Same :
    (n : ℕ) (t : Stream) (r : GrpcServer.RunStream)
    → Related GrpcServer.next_payload t (r.cached, r.reader)
    → Same
        (λ t r. Related GrpcServer.next_payload t (r.cached, r.reader))
        (read n t)
        (GrpcServer.read n r)
unfolding GrpcServer.read
upload_read-Same n t r h =
    stream_read-Same GrpcServer.next_payload {R = GrpcServer.RunStream}
      (λ t r. Related GrpcServer.next_payload t (r.cached, r.reader))
      (λ p. record r { reader = p.1; cached = p.0 }) n t (r.cached, r.reader) (λ t p h. h) h

upload_read_half-Same :
    (n : ℕ) (t : Stream) (r : GrpcServer.ReadHalf)
    → Related GrpcServer.next_payload t (r.cached, r.reader)
    → Same
        (λ t r. Related GrpcServer.next_payload t (r.cached, r.reader))
        (read n t)
        (GrpcServer.read_half n r)
unfolding GrpcServer.read_half
upload_read_half-Same n t r h =
    stream_read-Same GrpcServer.next_payload {R = GrpcServer.ReadHalf}
      (λ t r. Related GrpcServer.next_payload t (r.cached, r.reader))
      (λ p. record r { reader = p.1; cached = p.0 }) n t (r.cached, r.reader) (λ t p h. h) h

-- Writes of the client to an open channel that has carried nothing, through the write half, all
-- succeed. On the other end, with an empty cache, a read of `n` bytes through the read half, and
-- `read_exact` on the whole stream, give what they give on a connection where the written pieces
-- arrive one by one and that then fails with "no more data"; and what is left corresponds again, so
-- that this holds of all later reads.
pub upload :
    (ps : List Bytes) (n : ℕ) (w : GrpcClient.WriteHalf) (h : GrpcServer.ReadHalf)
    (r : GrpcServer.RunStream)
    → w.writer.closed ≡ false
    → w.writer.sent ≡ []
    → (w' : GrpcClient.WriteHalf) × (sends GrpcClient.write_half ps w ≡ ok w')
      × (let events = map message w'.writer.sent in
          (Same
            (λ t h. Related GrpcServer.next_payload t (h.cached, h.reader))
            (read n (pieces ps))
            (GrpcServer.read_half n (record h { reader = events; cached = cleared })))
          × (Same
              (λ t r. Related GrpcServer.next_payload t (r.cached, r.reader))
              (read_exact read n (pieces ps))
              (read_exact GrpcServer.read n (record r { reader = events; cached = cleared }))))
unfolding GrpcClient.write_half
upload ps n w h r open' empty =
    let (w', e, sent) =
      sends-ok interrupted (λ w. GrpcClient.request) GrpcClient.write_half (λ w. w.writer)
        (λ s w. record { writer = s }) (λ p w. refl) (λ s w. refl) (λ s w. refl) ps w open' in
    let events : w'.writer.sent ≡ map GrpcClient.request ps = sent ∙ rw empty refl in
    let y : Yields GrpcServer.next_payload (map message w'.writer.sent) (pieces ps) =
      rw events (upload-Yields ps) in
    (
      w',
      e,
      (
        upload_read_half-Same n (pieces ps) _ (refl_le, (pieces ps, refl, y)),
        read_exact-Same _ read GrpcServer.read upload_read-Same n (pieces ps) _
            (refl_le, (pieces ps, refl, y)),
      ),
    )

-- GrpcServer to GrpcClient.
download-Yields :
    (ps : List Bytes)
    → Yields GrpcClient.next_payload (map (λ p. message (record { payload = p })) ps) (pieces ps)
unfolding GrpcClient.next_payload
download-Yields [] = refl
download-Yields (p ∷ ps) =
    (map (λ p. message (record { payload = p })) ps, refl, download-Yields ps)

download_read-Same :
    (n : ℕ) (t : Stream) (r : GrpcClient.RunStream)
    → Related GrpcClient.next_payload t (r.cached, r.reader)
    → Same
        (λ t r. Related GrpcClient.next_payload t (r.cached, r.reader))
        (read n t)
        (GrpcClient.read n r)
unfolding GrpcClient.read
download_read-Same n t r h =
    stream_read-Same GrpcClient.next_payload {R = GrpcClient.RunStream}
      (λ t r. Related GrpcClient.next_payload t (r.cached, r.reader))
      (λ p. record r { reader = p.1; cached = p.0 }) n t (r.cached, r.reader) (λ t p h. h) h

download_read_half-Same :
    (n : ℕ) (t : Stream) (r : GrpcClient.ReadHalf)
    → Related GrpcClient.next_payload t (r.cached, r.reader)
    → Same
        (λ t r. Related GrpcClient.next_payload t (r.cached, r.reader))
        (read n t)
        (GrpcClient.read_half n r)
unfolding GrpcClient.read_half
download_read_half-Same n t r h =
    stream_read-Same GrpcClient.next_payload {R = GrpcClient.ReadHalf}
      (λ t r. Related GrpcClient.next_payload t (r.cached, r.reader))
      (λ p. record r { reader = p.1; cached = p.0 }) n t (r.cached, r.reader) (λ t p h. h) h

-- Writes of the server to an open channel that has carried nothing, through the write half, all
-- succeed. On the other end, with an empty cache, a read of `n` bytes through the read half, and
-- `read_exact` on the whole stream, give what they give on a connection where the written pieces
-- arrive one by one and that then fails with "no more data"; and what is left corresponds again, so
-- that this holds of all later reads.
pub download :
    (ps : List Bytes) (n : ℕ) (w : GrpcServer.WriteHalf) (h : GrpcClient.ReadHalf)
    (r : GrpcClient.RunStream)
    → w.writer.closed ≡ false
    → w.writer.sent ≡ []
    → (w' : GrpcServer.WriteHalf) × (sends GrpcServer.write_half ps w ≡ ok w')
      × (let events = w'.writer.sent in
          (Same
            (λ t h. Related GrpcClient.next_payload t (h.cached, h.reader))
            (read n (pieces ps))
            (GrpcClient.read_half n (record h { reader = events; cached = cleared })))
          × (Same
              (λ t r. Related GrpcClient.next_payload t (r.cached, r.reader))
              (read_exact read n (pieces ps))
              (read_exact GrpcClient.read n (record r { reader = events; cached = cleared }))))
unfolding GrpcServer.write_half
download ps n w h r open' empty =
    let (w', e, sent) =
      sends-ok interrupted (λ w. (λ p. message (record { payload = p }))) GrpcServer.write_half
        (λ w. w.writer) (λ s w. record { writer = s }) (λ p w. refl) (λ s w. refl) (λ s w. refl) ps
        w open' in
    let events : w'.writer.sent ≡ map (λ p. message (record { payload = p })) ps =
      sent ∙ rw empty refl in
    let y : Yields GrpcClient.next_payload (w'.writer.sent) (pieces ps) =
      rw events (download-Yields ps) in
    (
      w',
      e,
      (
        download_read_half-Same n (pieces ps) _ (refl_le, (pieces ps, refl, y)),
        read_exact-Same _ read GrpcClient.read download_read-Same n (pieces ps) _
            (refl_le, (pieces ps, refl, y)),
      ),
    )
