-- ===== src/Relay/Udp.antt =====
-- src/object/udp.rs: the relay of a SOCKS5 UDP association. The functions of tokio's `UdpSocket`, the
-- acceptor, the router and the connector are parameters.
pub mod Setup
pub mod Associated
use rog.Prelude.{
  ℕ, Bool, true, false, ◌==◌, Option, none, some, List, [], ◌∷◌, Result, ok, err, panics, unwrap,
  ◌>>=◌, length, not,
}
use rog.Prelude.Word.{Bytes}
use rog.Prelude.Maps.{Map}
use rog.Address.{RunAddr, with_port}
use rog.UdpPacket.{UdpPacket, SocketAddr, parse, reply_bytes}
use rog.Streams.Channels.{sends}
use rog.Relay.Copy.{Verdict, ends, skips, passes, Ends, start, u64, Relay}
use rog.Relay.RawUdp.{empty_skips, payload_size}

-- A packet as the socket receives it.
abbrev pub Datagram : Type 0
Datagram = Bytes × SocketAddr

-- Loop a only waits for the end of the TCP stream, and then cancels the token.
abbrev pub byte_skips : Bytes → Verdict
byte_skips [] = ends
byte_skips (b ∷ bs) = skips

abbrev pub watching : {S : Type 0} → (ℕ → S → Result (Bytes × S)) → Ends S (Unit {0}) Bytes
watching read_exact = record {
  read = read_exact 1;
  verdict = byte_skips;
  write = λ bs u. ok u;
  size = λ bs. 0;
  biased = true;
}

module _ {SR SW TR TW : Type 0} (recv_from : SR → Result (Datagram × SR))
    (send_to : Bytes → Bytes → SW → Result SW) (tunnel_read : TR → Result (UdpPacket × TR))
    (tunnel_write : UdpPacket → TW → Result TW) where
  receive : SR → Result (UdpPacket × SR)
  receive r = do
    ((data', src_addr), r) ← recv_from r
    udp_packet ← parse data' src_addr
    ok (udp_packet, r)

  -- The payloads go to the address that the answer names, one after the other.
  reply : UdpPacket → SW → Result SW
  reply udp_packet w =
      let (payloads, src_addr_str, dst_addr) = reply_bytes udp_packet in
      sends (λ payload. send_to payload src_addr_str) payloads w

  unfoldable pub loop_b : Ends SR TW UdpPacket
  unfolding receive
  loop_b = record {
    read = receive;
    verdict = λ packet. empty_skips packet.payload;
    write = tunnel_write;
    size = payload_size;
    biased = true;
  }

  unfoldable pub loop_c : Ends TR SW UdpPacket
  unfolding reply
  loop_c = record {
    read = tunnel_read;
    verdict = λ packet. passes;
    write = reply;
    size = payload_size;
    biased = true;
  }

  module _ {S Conf C : Type 0} (bind : Result (SR × SW)) (local_port : SR → Result ℕ)
      (post_handshake : Bool → ℕ → S → Result S) (route : RunAddr → Bytes) (connectors : Map Conf)
      (create : Conf → Result C) (udp_tunnel : C → Bytes → Result (Option (TR × TW))) where
    abbrev bound : Result (SR × SW) → S → Result (S × SR × SW)
    bound (ok (r, w)) stream = do
      udp_port ← local_port r
      stream ← post_handshake false udp_port stream
      ok (stream, r, w)
    bound (err k m) stream = do _ ← post_handshake true 0 stream; err k m
    bound panics stream = panics

    -- The client learns the port, or that there is none.
    unfoldable pub announce : S → Result (S × SR × SW)
    announce stream = bound bind stream

    -- The connector is made for this association alone.
    unfoldable pub open_tunnel : UdpPacket → Result (TR × TW)
    open_tunnel p = do
      conn_conf ←
          unwrap (connectors (route (record { addr = p.dst_addr; port = p.dst_port; udp = false })))
      ctor ← create conn_conf
      tunnel ← udp_tunnel ctor (with_port p.src_addr p.src_port)
      unwrap tunnel

    -- Whether the token was cancelled, and both loops if they run.
    abbrev pub Begun : Type 0
    Begun = Bool × Result (Option (Relay loop_b loop_c))

    abbrev running : UdpPacket → SR → SW → TR → Result TW → Begun
    running p r w tr (ok tw) = (
      false,
      ok (
          some (record {
            cancelled = false;
            left = start loop_b r tw (u64 (payload_size p));
            right = start loop_c tr w 0;
          })),
    )
    running p r w tr (err k m) = (true, err k m)
    running p r w tr panics = (false, panics)

    abbrev opened : UdpPacket → SR → SW → Result (TR × TW) → Begun
    opened p r w (ok (tr, tw)) = running p r w tr (tunnel_write p tw)
    opened p r w (err k m) = (false, err k m)
    opened p r w panics = (false, panics)

    abbrev with_packet : SR → SW → UdpPacket → Bytes → Begun
    with_packet r w p [] = (true, ok none)
    with_packet r w p (b ∷ bs) = opened p r w (open_tunnel p)

    abbrev parsed : SR → SW → Result UdpPacket → Begun
    parsed r w (ok p) = with_packet r w p p.payload
    parsed r w (err k m) = (false, err k m)
    parsed r w panics = (false, panics)

    abbrev received : SW → Result (Datagram × SR) → Begun
    received w (ok ((data', src_addr), r)) = parsed r w (parse data' src_addr)
    received w (err k m) = (true, err k m)
    received w panics = (false, panics)

    unfoldable pub first_packet : SR → SW → Begun
    unfolding open_tunnel loop_b loop_c
    first_packet r w = received w (recv_from r)

    -- Up to where the loops run; loop a runs from before the first packet.
    unfoldable pub handle_udp_connection : S → Result (S × Begun)
    unfolding announce first_packet
    handle_udp_connection stream = do
      (stream, r, w) ← announce stream
      ok (stream, first_packet r w)
