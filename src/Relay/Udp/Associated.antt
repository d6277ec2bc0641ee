-- ===== src/Relay/Udp/Associated.antt =====
-- src/object/udp.rs: what the loops of an association carry, from the first packet on.
use rog.Prelude.{sym, arith, List, refl, ℕ, ◌≡◌, Bool, Option, some, Result, ok}
use rog.Prelude.Word.{Bytes}
use rog.Prelude.Maps.{Map}
use rog.Address.{RunAddr}
use rog.UdpPacket.{UdpPacket}
use rog.Relay.Copy.{relay, Side, Relay, u64}
use rog.Relay.Copy.Runs.{relay_copies}
use rog.Relay.Copy.Order.{Copied}
use rog.Relay.Copy.First.{Follows, Copied-Follows}
use rog.Relay.RawUdp.{payload_size}
use rog.Relay.Udp.{handle_udp_connection, Datagram, loop_b, loop_c}
use rog.Relay.Udp.Setup.{First, handle-First}

module _ {SR SW TR TW S Conf C : Type 0} (recv_from : SR → Result (Datagram × SR))
    (send_to : Bytes → Bytes → SW → Result SW) (tunnel_read : TR → Result (UdpPacket × TR))
    (tunnel_write : UdpPacket → TW → Result TW) (bind : Result (SR × SW))
    (local_port : SR → Result ℕ) (post_handshake : Bool → ℕ → S → Result S)
    (route : RunAddr → Bytes) (connectors : Map Conf) (create : Conf → Result C)
    (udp_tunnel : C → Bytes → Result (Option (TR × TW))) where
  -- A datagram that is not empty opens a tunnel: if the association is set up, its client has been told
  -- the port of a new socket, the first datagram on it parses to a packet with a payload, the route of
  -- that packet's destination names a configured connector, and a new connector opened a tunnel, whose
  -- first packet it is. After any schedule of the loops and of the cancellation of their token, the
  -- tunnel has been sent this packet and then packets that were received, in that order, each with a
  -- payload, and all of those that were to be sent but at most one at the end; what is counted
  -- is the sum of their payloads modulo 2 ^ 64. The answers to the client follow the packets of the
  -- tunnel in the same way.
  pub udp_associated :
      (stream stream' : S) (x : Bool)
      (s : Relay
        (loop_b recv_from send_to tunnel_read tunnel_write)
        (loop_c recv_from send_to tunnel_read tunnel_write))
      (schedule : List (
        Side
          (loop_b recv_from send_to tunnel_read tunnel_write)
          (loop_c recv_from send_to tunnel_read tunnel_write)))
      → handle_udp_connection recv_from send_to tunnel_read tunnel_write bind local_port
          post_handshake route connectors create udp_tunnel stream
        ≡ ok (stream', (x, ok (some s)))
      → let s' =
          relay
            (loop_b recv_from send_to tunnel_read tunnel_write)
            (loop_c recv_from send_to tunnel_read tunnel_write)
            s
            schedule in
        (f : First recv_from send_to tunnel_read tunnel_write bind local_port post_handshake route
          connectors create udp_tunnel stream stream' s)
        × Follows (loop_b recv_from send_to tunnel_read tunnel_write) f.p f.r' f.opens.tw s'.left
        × Copied (loop_c recv_from send_to tunnel_read tunnel_write) f.opens.tr f.w 0 s'.right
  udp_associated stream stream' x s schedule e =
      let f =
        handle-First recv_from send_to tunnel_read tunnel_write bind local_port post_handshake route
          connectors create udp_tunnel stream stream' x s e in
      let o = f.opens in
      let n : ℕ = u64 (payload_size f.p) in
      let (l, r) =
        relay_copies (loop_b recv_from send_to tunnel_read tunnel_write)
          (loop_c recv_from send_to tunnel_read tunnel_write) f.r' o.tw' n o.tr f.w 0 schedule
          (omega arith) (omega arith) in
      (
        f,
        Copied-Follows (loop_b recv_from send_to tunnel_read tunnel_write) f.p f.r' o.tw o.tw' n _
            (unfold loop_b in o.wrote) (unfold loop_b in refl) (rw (sym o.begins) at l),
        rw (sym o.begins) at r,
      )
