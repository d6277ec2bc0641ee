-- ===== src/UdpStreams/RevGrpc/RoundTrip.antt =====
-- The two ends of src/stream/rev_grpc_udp_*.rs.
use rog.Prelude.{
  ◌≡◌, ◌≢◌, refl, broken_pipe, broken_pipe, other, false, bytes_eq_refl, bytes_eq_ne, List, [], ◌∷◌,
  ◌++◌, ok, err, length,
}
use rog.Prelude.Channel.{send, message, Streaming}
use rog.Proto.{RevUdpReq, RevUdpRes, rev_udp_req_from_packet, rev_udp_res_try_from}
use rog.Proto.RoundTrip.{rev_udp_req-round, rev_udp_res-round}
use rog.Streams.Channels.{map, map-map, sends, sends-ok}
use rog.UdpPacket.{UdpPacket}
use rog.UdpStreams.Sequence.{reads, reads-ok, AllPorts, HasPorts}
use rog.UdpStreams.RevGrpc.{
  ClientWriter, ServerReader, ServerWriter, client_write, client_read, server_read, server_write,
}

server_read-ok :
    (r : ServerReader) (p : UdpPacket) (rest : Streaming RevUdpReq)
    → HasPorts p
    → server_read (record r { reader = message (rev_udp_req_from_packet p r.auth) ∷ rest })
      ≡ ok (p, record r { reader = rest })
unfolding server_read rev_udp_req_from_packet
server_read-ok r p rest h = rw (bytes_eq_refl r.auth, rev_udp_req-round p h.0 h.1 r.auth)

-- Packets with 16-bit ports that the client writes to an open channel which has carried nothing are
-- all sent; a server with the same secret reads them back in order, and what follows them stays.
pub rev_grpc_udp_upload :
    (ps : List UdpPacket) (rest : Streaming RevUdpReq) (w : ClientWriter) (r : ServerReader)
    → AllPorts ps
    → w.writer.closed ≡ false
    → w.writer.sent ≡ []
    → w.auth ≡ r.auth
    → (w' : ClientWriter) × (sends client_write ps w ≡ ok w')
      × (reads server_read (length ps) (record r { reader = map message w'.writer.sent ++ rest })
          ≡ ok (ps, record r { reader = rest }))
unfolding client_write
rev_grpc_udp_upload ps rest w r ports open' empty same =
    let (w', e, sent) =
      sends-ok broken_pipe (λ w p. rev_udp_req_from_packet p w.auth) client_write (λ w. w.writer)
        (λ s w. record w { writer = s }) (λ p w. refl) (λ s w. refl) (λ s w. refl) ps w open' in
    let events : map message w'.writer.sent
        ≡ map (λ p. message (rev_udp_req_from_packet p r.auth)) ps =
      rw (sent, empty, same) (map-map message (λ p. rev_udp_req_from_packet p r.auth) ps) in
    (
      w',
      e,
      rw events (
          reads-ok (λ p. rev_udp_req_from_packet p r.auth) server_read
            (λ s. record r { reader = s }) (server_read-ok r) ps rest ports),
    )

-- A packet of a client with another secret is refused, and never returned.
pub rev_grpc_udp_refused :
    (p : UdpPacket) (rest : Streaming RevUdpReq) (w : ClientWriter) (r : ServerReader)
    → w.writer.closed ≡ false
    → w.writer.sent ≡ []
    → w.auth ≢ r.auth
    → (w' : ClientWriter) × (client_write p w ≡ ok w')
      × (server_read (record r { reader = map message w'.writer.sent ++ rest })
          ≡ err other "rev grpc udp auth mismatch")
unfolding client_write server_read send rev_udp_req_from_packet
rev_grpc_udp_refused p rest w r open' empty ne = (
  record w {
    writer = record {
      sent = w.writer.sent ++ rev_udp_req_from_packet p w.auth ∷ [];
      closed = w.writer.closed;
    };
  },
  rw open' refl,
  rw (empty, bytes_eq_ne w.auth r.auth ne) refl,
)

-- Packets with 16-bit ports that the server writes to an open channel which has carried nothing are
-- all sent, and the client reads them back in order.
pub rev_grpc_udp_download :
    (ps : List UdpPacket) (rest : Streaming RevUdpRes) (w : ServerWriter)
    → AllPorts ps
    → w.writer.closed ≡ false
    → w.writer.sent ≡ []
    → (w' : ServerWriter) × (sends server_write ps w ≡ ok w')
      × (reads client_read (length ps) (record { reader = w'.writer.sent ++ rest })
          ≡ ok (ps, record { reader = rest }))
unfolding server_write
rev_grpc_udp_download ps rest w ports open' empty =
    let (w', e, sent) =
      sends-ok broken_pipe (λ w p. message (rev_udp_res_try_from p)) server_write (λ w. w.writer)
        (λ s w. record w { writer = s }) (λ p w. refl) (λ s w. refl) (λ s w. refl) ps w open' in
    (
      w',
      e,
      rw (sent, empty)
          (reads-ok rev_udp_res_try_from client_read (λ s. record { reader = s })
            (λ p rest h. unfold client_read in rw (rev_udp_res-round p h.0 h.1)) ps rest ports),
    )
