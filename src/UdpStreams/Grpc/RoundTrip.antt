-- ===== src/UdpStreams/Grpc/RoundTrip.antt =====
-- The two ends of src/stream/grpc_udp_*.rs.
use rog.Prelude.{
  ◌≡◌, ◌≢◌, refl, broken_pipe, interrupted, other, false, bytes_eq_refl, bytes_eq_ne, sym, List, [],
  ◌∷◌, ◌++◌, ok, err, length,
}
use rog.Prelude.Channel.{send, message, Streaming}
use rog.Proto.{UdpReq, UdpRes, udp_req_from_packet, udp_res_try_from}
use rog.Proto.RoundTrip.{udp_req-round, udp_res-round}
use rog.Streams.Channels.{map, map-map, sends, sends-ok}
use rog.UdpPacket.{UdpPacket}
use rog.UdpStreams.Sequence.{reads, reads-ok, AllPorts, HasPorts}
use rog.UdpStreams.Grpc.{
  ClientWriter, ClientReader, ServerReader, ServerWriter, client_write, client_read, server_read,
  server_write,
}

server_read-ok :
    (r : ServerReader) (p : UdpPacket) (rest : Streaming UdpReq)
    → HasPorts p
    → server_read (record r { reader = message (udp_req_from_packet p r.auth) ∷ rest })
      ≡ ok (p, record r { reader = rest })
unfolding server_read udp_req_from_packet
server_read-ok r p rest h = rw (bytes_eq_refl r.auth, udp_req-round p h.0 h.1 r.auth)

-- Packets with 16-bit ports that the client writes to an open channel which has carried nothing are
-- all sent; a server with the same secret reads them back in order, and what follows them stays.
pub grpc_udp_upload :
    (ps : List UdpPacket) (rest : Streaming UdpReq) (w : ClientWriter) (r : ServerReader)
    → AllPorts ps
    → w.writer.closed ≡ false
    → w.writer.sent ≡ []
    → w.auth ≡ r.auth
    → (w' : ClientWriter) × (sends client_write ps w ≡ ok w')
      × (reads server_read (length ps) (record r { reader = map message w'.writer.sent ++ rest })
          ≡ ok (ps, record r { reader = rest }))
unfolding client_write
grpc_udp_upload ps rest w r ports open' empty same =
    let (w', e, sent) =
      sends-ok broken_pipe (λ w p. udp_req_from_packet p w.auth) client_write (λ w. w.writer)
        (λ s w. record w { writer = s }) (λ p w. refl) (λ s w. refl) (λ s w. refl) ps w open' in
    let events : map message w'.writer.sent ≡ map (λ p. message (udp_req_from_packet p r.auth)) ps =
      rw (sent, empty, same) (map-map message (λ p. udp_req_from_packet p r.auth) ps) in
    (
      w',
      e,
      rw events (
          reads-ok (λ p. udp_req_from_packet p r.auth) server_read (λ s. record r { reader = s })
            (server_read-ok r) ps rest ports),
    )

-- A packet of a client with another secret is refused, and never returned.
pub grpc_udp_refused :
    (p : UdpPacket) (rest : Streaming UdpReq) (w : ClientWriter) (r : ServerReader)
    → w.writer.closed ≡ false
    → w.writer.sent ≡ []
    → w.auth ≢ r.auth
    → (w' : ClientWriter) × (client_write p w ≡ ok w')
      × (server_read (record r { reader = map message w'.writer.sent ++ rest })
          ≡ err other "auth mismatch")
unfolding client_write server_read send udp_req_from_packet
grpc_udp_refused p rest w r open' empty ne = (
  record w {
    writer = record {
      sent = w.writer.sent ++ udp_req_from_packet p w.auth ∷ [];
      closed = w.writer.closed;
    };
  },
  rw open' refl,
  rw (empty, bytes_eq_ne r.auth w.auth (λ e. ne (sym e))) refl,
)

-- Packets with 16-bit ports that the server writes to an open channel which has carried nothing are
-- all sent, and the client reads them back in order.
pub grpc_udp_download :
    (ps : List UdpPacket) (rest : Streaming UdpRes) (w : ServerWriter) (r : ClientReader)
    → AllPorts ps
    → w.writer.closed ≡ false
    → w.writer.sent ≡ []
    → (w' : ServerWriter) × (sends server_write ps w ≡ ok w')
      × (reads client_read (length ps) (record r { reader = w'.writer.sent ++ rest })
          ≡ ok (ps, record r { reader = rest }))
unfolding server_write
grpc_udp_download ps rest w r ports open' empty =
    let (w', e, sent) =
      sends-ok interrupted (λ w p. message (udp_res_try_from p)) server_write (λ w. w.writer)
        (λ s w. record w { writer = s }) (λ p w. refl) (λ s w. refl) (λ s w. refl) ps w open' in
    (
      w',
      e,
      rw (sent, empty)
          (reads-ok udp_res_try_from client_read (λ s. record r { reader = s })
            (λ p rest h. unfold client_read in rw (udp_res-round p h.0 h.1)) ps rest ports),
    )
