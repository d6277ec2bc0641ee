-- ===== src/Streams/RevGrpc.antt =====
-- src/stream/rev_grpc_client.rs and rev_grpc_server.rs at the two ends of a channel.
use rog.Prelude.{ℕ, interrupted, ◌≡◌, refl, ◌∙◌, ◌≤◌, arith, false, List, [], ◌∷◌, ok}
use rog.Prelude.Word.{Bytes}
use rog.Prelude.Channel.{message}
use rog.RunStream.{Stream, read, read_exact}
use rog.RunStream.Simulation.{Same, read_exact-Same}
use rog.Streams.Cached.{cleared}
use rog.Streams.Refines.{Yields, Related, stream_read-Same}
use rog.Streams.Channels.{pieces, map, sends, sends-ok}
use rog.Streams.RevGrpcClient
use rog.Streams.RevGrpcServer

refl_le : 0 ≤ 0
refl_le = omega arith

-- RevGrpcClient to RevGrpcServer.
rev_upload-Yields :
    (ps : List Bytes)
    → Yields RevGrpcServer.next_payload (map message (map RevGrpcClient.request ps)) (pieces ps)
unfolding RevGrpcServer.next_payload
rev_upload-Yields [] = refl
rev_upload-Yields (p ∷ ps) =
    (map message (map RevGrpcClient.request ps), refl, rev_upload-Yields ps)

rev_upload_read-Same :
    (n : ℕ) (t : Stream) (r : RevGrpcServer.RunStream)
    → Related RevGrpcServer.next_payload t (r.cached, r.reader)
    → Same
        (λ t r. Related RevGrpcServer.next_payload t (r.cached, r.reader))
        (read n t)
        (RevGrpcServer.read n r)
unfolding RevGrpcServer.read
rev_upload_read-Same n t r h =
    stream_read-Same RevGrpcServer.next_payload {R = RevGrpcServer.RunStream}
      (λ t r. Related RevGrpcServer.next_payload t (r.cached, r.reader))
      (λ p. record r { reader = p.1; cached = p.0 }) n t (r.cached, r.reader) (λ t p h. h) h

rev_upload_read_half-Same :
    (n : ℕ) (t : Stream) (r : RevGrpcServer.ReadHalf)
    → Related RevGrpcServer.next_payload t (r.cached, r.reader)
    → Same
        (λ t r. Related RevGrpcServer.next_payload t (r.cached, r.reader))
        (read n t)
        (RevGrpcServer.read_half n r)
unfolding RevGrpcServer.read_half
rev_upload_read_half-Same n t r h =
    stream_read-Same RevGrpcServer.next_payload {R = RevGrpcServer.ReadHalf}
      (λ t r. Related RevGrpcServer.next_payload t (r.cached, r.reader))
      (λ p. record r { reader = p.1; cached = p.0 }) n t (r.cached, r.reader) (λ t p h. h) h

-- Writes of the client to an open channel that has carried nothing, through the write half, all
-- succeed. On the other end, with an empty cache, a read of `n` bytes through the read half, and
-- `read_exact` on the whole stream, give what they give on a connection where the written pieces
-- arrive one by one and that then fails with "no more data"; and what is left corresponds again, so
-- that this holds of all later reads.
pub rev_upload :
    (ps : List Bytes) (n : ℕ) (w : RevGrpcClient.WriteHalf) (h : RevGrpcServer.ReadHalf)
    (r : RevGrpcServer.RunStream)
    → w.writer.closed ≡ false
    → w.writer.sent ≡ []
    → (w' : RevGrpcClient.WriteHalf) × (sends RevGrpcClient.write_half ps w ≡ ok w')
      × (let events = map message w'.writer.sent in
          (Same
            (λ t h. Related RevGrpcServer.next_payload t (h.cached, h.reader))
            (read n (pieces ps))
            (RevGrpcServer.read_half n (record h { reader = events; cached = cleared })))
          × (Same
              (λ t r. Related RevGrpcServer.next_payload t (r.cached, r.reader))
              (read_exact read n (pieces ps))
              (read_exact RevGrpcServer.read n (record r { reader = events; cached = cleared }))))
unfolding RevGrpcClient.write_half
rev_upload ps n w h r open' empty =
    let (w', e, sent) =
      sends-ok interrupted (λ w. RevGrpcClient.request) RevGrpcClient.write_half (λ w. w.writer)
        (λ s w. record { writer = s }) (λ p w. refl) (λ s w. refl) (λ s w. refl) ps w open' in
    let events : w'.writer.sent ≡ map RevGrpcClient.request ps = sent ∙ rw empty refl in
    let y : Yields RevGrpcServer.next_payload (map message w'.writer.sent) (pieces ps) =
      rw events (rev_upload-Yields ps) in
    (
      w',
      e,
      (
        rev_upload_read_half-Same n (pieces ps) _ (refl_le, (pieces ps, refl, y)),
        read_exact-Same _ read RevGrpcServer.read rev_upload_read-Same n (pieces ps) _
            (refl_le, (pieces ps, refl, y)),
      ),
    )

-- RevGrpcServer to RevGrpcClient.
rev_download-Yields :
    (ps : List Bytes)
    → Yields RevGrpcClient.next_payload (map (λ p. message (record { payload = p })) ps) (pieces ps)
unfolding RevGrpcClient.next_payload
rev_download-Yields [] = refl
rev_download-Yields (p ∷ ps) =
    (map (λ p. message (record { payload = p })) ps, refl, rev_download-Yields ps)

rev_download_read-Same :
    (n : ℕ) (t : Stream) (r : RevGrpcClient.RunStream)
    → Related RevGrpcClient.next_payload t (r.cached, r.reader)
    → Same
        (λ t r. Related RevGrpcClient.next_payload t (r.cached, r.reader))
        (read n t)
        (RevGrpcClient.read n r)
unfolding RevGrpcClient.read
rev_download_read-Same n t r h =
    stream_read-Same RevGrpcClient.next_payload {R = RevGrpcClient.RunStream}
      (λ t r. Related RevGrpcClient.next_payload t (r.cached, r.reader))
      (λ p. record r { reader = p.1; cached = p.0 }) n t (r.cached, r.reader) (λ t p h. h) h

rev_download_read_half-Same :
    (n : ℕ) (t : Stream) (r : RevGrpcClient.ReadHalf)
    → Related RevGrpcClient.next_payload t (r.cached, r.reader)
    → Same
        (λ t r. Related RevGrpcClient.next_payload t (r.cached, r.reader))
        (read n t)
        (RevGrpcClient.read_half n r)
unfolding RevGrpcClient.read_half
rev_download_read_half-Same n t r h =
    stream_read-Same RevGrpcClient.next_payload {R = RevGrpcClient.ReadHalf}
      (λ t r. Related RevGrpcClient.next_payload t (r.cached, r.reader))
      (λ p. record r { reader = p.1; cached = p.0 }) n t (r.cached, r.reader) (λ t p h. h) h

-- Writes of the server to an open channel that has carried nothing, through the write half, all
-- succeed. On the other end, with an empty cache, a read of `n` bytes through the read half, and
-- `read_exact` on the whole stream, give what they give on a connection where the written pieces
-- arrive one by one and that then fails with "no more data"; and what is left corresponds again, so
-- that this holds of all later reads.
pub rev_download :
    (ps : List Bytes) (n : ℕ) (w : RevGrpcServer.WriteHalf) (h : RevGrpcClient.ReadHalf)
    (r : RevGrpcClient.RunStream)
    → w.writer.closed ≡ false
    → w.writer.sent ≡ []
    → (w' : RevGrpcServer.WriteHalf) × (sends RevGrpcServer.write_half ps w ≡ ok w')
      × (let events = w'.writer.sent in
          (Same
            (λ t h. Related RevGrpcClient.next_payload t (h.cached, h.reader))
            (read n (pieces ps))
            (RevGrpcClient.read_half n (record h { reader = events; cached = cleared })))
          × (Same
              (λ t r. Related RevGrpcClient.next_payload t (r.cached, r.reader))
              (read_exact read n (pieces ps))
              (read_exact RevGrpcClient.read n (record r { reader = events; cached = cleared }))))
unfolding RevGrpcServer.write_half
rev_download ps n w h r open' empty =
    let (w', e, sent) =
      sends-ok interrupted (λ w. (λ p. message (record { payload = p }))) RevGrpcServer.write_half
        (λ w. w.writer) (λ s w. record { writer = s }) (λ p w. refl) (λ s w. refl) (λ s w. refl) ps
        w open' in
    let events : w'.writer.sent ≡ map (λ p. message (record { payload = p })) ps =
      sent ∙ rw empty refl in
    let y : Yields RevGrpcClient.next_payload (w'.writer.sent) (pieces ps) =
      rw events (rev_download-Yields ps) in
    (
      w',
      e,
      (
        rev_download_read_half-Same n (pieces ps) _ (refl_le, (pieces ps, refl, y)),
        read_exact-Same _ read RevGrpcClient.read rev_download_read-Same n (pieces ps) _
            (refl_le, (pieces ps, refl, y)),
      ),
    )
