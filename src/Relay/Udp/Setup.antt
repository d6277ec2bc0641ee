-- ===== src/Relay/Udp/Setup.antt =====
-- src/object/udp.rs: what has happened when both loops of an association start.
use rog.Prelude.{
  panics, refl, ◌∷◌, true, [], ◌≢◌, err, ℕ, ◌≡◌, Bool, false, Option, none, some, Result, ok,
  unwrap, >>=-eq-ok,
}
use rog.Prelude.Word.{Bytes}
use rog.Prelude.Maps.{Map}
use rog.Address.{RunAddr, with_port}
use rog.UdpPacket.{UdpPacket}
use rog.Relay.Copy.{Relay, u64}
use rog.Relay.Copy.Runs.{begin}
use rog.Relay.RawUdp.{payload_size}
use rog.Relay.Udp.{
  first_packet, parse, announce, running, bound, with_packet, parsed, SocketAddr, received, opened,
  handle_udp_connection, Datagram, loop_b, loop_c, open_tunnel,
}

module _ {SR SW TR TW S Conf C : Type 0} (recv_from : SR → Result (Datagram × SR))
    (send_to : Bytes → Bytes → SW → Result SW) (tunnel_read : TR → Result (UdpPacket × TR))
    (tunnel_write : UdpPacket → TW → Result TW) (bind : Result (SR × SW))
    (local_port : SR → Result ℕ) (post_handshake : Bool → ℕ → S → Result S)
    (route : RunAddr → Bytes) (connectors : Map Conf) (create : Conf → Result C)
    (udp_tunnel : C → Bytes → Result (Option (TR × TW))) where
  abbrev pub Tunnel : Type 0
  Tunnel =
      Relay (loop_b recv_from send_to tunnel_read tunnel_write)
        (loop_c recv_from send_to tunnel_read tunnel_write)

  -- What the first packet led to: a tunnel of a new connector, which took the packet.
  pub record Opened (p : UdpPacket) (r : SR) (w : SW) (s : Tunnel) : Type 0 where
    pub conf : Conf
    pub connector : C
    pub tr : TR
    pub tw : TW
    pub tw' : TW
    pub routed :
        connectors (route (record { addr = p.dst_addr; port = p.dst_port; udp = false }))
        ≡ some conf
    pub made : create conf ≡ ok connector
    pub tunnelled : udp_tunnel connector (with_port p.src_addr p.src_port) ≡ ok (some (tr, tw))
    pub wrote : tunnel_write p tw ≡ ok tw'
    pub begins :
        s
        ≡ begin
            (loop_b recv_from send_to tunnel_read tunnel_write)
            (loop_c recv_from send_to tunnel_read tunnel_write)
            r
            tw'
            (u64 (payload_size p))
            tr
            w
            0

  unwrap-eq-ok : {A : Type 0} (o : Option A) (a : A) → unwrap o ≡ ok a → o ≡ some a
  unwrap-eq-ok none a e = absurd (cc)
  unwrap-eq-ok (some x) a e = cc

  open_tunnel-eq-ok :
      (p : UdpPacket) (tr : TR) (tw : TW)
      → open_tunnel recv_from send_to tunnel_read tunnel_write bind local_port post_handshake route
          connectors create udp_tunnel p
        ≡ ok (tr, tw)
      → (conf : Conf) × (connector : C) × (connectors
            (route (record { addr = p.dst_addr; port = p.dst_port; udp = false }))
          ≡ some conf)
        × (create conf ≡ ok connector)
        × (udp_tunnel connector (with_port p.src_addr p.src_port) ≡ ok (some (tr, tw)))
  unfolding open_tunnel
  open_tunnel-eq-ok p tr tw e =
      let (conf, e₁, f₁) = >>=-eq-ok (unwrap (connectors _)) _ e in
      let (connector, e₂, f₂) = >>=-eq-ok (create conf) _ f₁ in
      let (tunnel, e₃, f₃) = >>=-eq-ok (udp_tunnel connector _) _ f₂ in
      (
        conf,
        connector,
        unwrap-eq-ok (connectors _) conf e₁,
        e₂,
        (let q : tunnel ≡ some (tr, tw) = unwrap-eq-ok tunnel (tr, tw) f₃ in cc),
      )

  -- The client was told a port, and its first datagram was not empty.
  pub record First (stream stream' : S) (s : Tunnel) : Type 0 where
    pub r : SR
    pub w : SW
    pub udp_port : ℕ
    pub is_bound : bind ≡ ok (r, w)
    pub port_is : local_port r ≡ ok udp_port
    pub told : post_handshake false udp_port stream ≡ ok stream'
    pub data' : Bytes
    pub src_addr : SocketAddr
    pub r' : SR
    pub came : recv_from r ≡ ok ((data', src_addr), r')
    pub p : UdpPacket
    pub parses : parse data' src_addr ≡ ok p
    pub non_empty : p.payload ≢ []
    pub opens : Opened p r' w s

  running-eq-ok :
      (p : UdpPacket) (r : SR) (w : SW) (tr : TR) (o : Result TW) (x : Bool) (s : Tunnel)
      → running recv_from send_to tunnel_read tunnel_write bind local_port post_handshake route
          connectors create udp_tunnel p r w tr o
        ≡ (x, ok (some s))
      → (tw' : TW) × (o ≡ ok tw')
        × (s
            ≡ begin
                (loop_b recv_from send_to tunnel_read tunnel_write)
                (loop_c recv_from send_to tunnel_read tunnel_write)
                r
                tw'
                (u64 (payload_size p))
                tr
                w
                0)
  running-eq-ok p r w tr (ok tw) x s e = (tw, refl, cc)
  running-eq-ok p r w tr (err k m) x s e = absurd (cc)
  running-eq-ok p r w tr panics x s e = absurd (cc)

  opened-eq-ok :
      (p : UdpPacket) (r : SR) (w : SW) (o : Result (TR × TW)) (x : Bool) (s : Tunnel)
      → opened recv_from send_to tunnel_read tunnel_write bind local_port post_handshake route
          connectors create udp_tunnel p r w o
        ≡ (x, ok (some s))
      → open_tunnel recv_from send_to tunnel_read tunnel_write bind local_port post_handshake route
          connectors create udp_tunnel p
        ≡ o
      → Opened p r w s
  opened-eq-ok p r w (ok (tr, tw)) x s e o =
      let (tw', wrote, begins) = running-eq-ok p r w tr (tunnel_write p tw) x s e in
      let (conf, connector, routed, made, tunnelled) = open_tunnel-eq-ok p tr tw o in
      record {
        conf = conf;
        connector = connector;
        tr = tr;
        tw = tw;
        tw' = tw';
        routed = routed;
        made = made;
        tunnelled = tunnelled;
        wrote = wrote;
        begins = begins;
      }
  opened-eq-ok p r w (err k m) x s e o = absurd (cc)
  opened-eq-ok p r w panics x s e o = absurd (cc)

  with_packet-eq-ok :
      (r : SR) (w : SW) (p : UdpPacket) (bs : Bytes) (x : Bool) (s : Tunnel)
      → with_packet recv_from send_to tunnel_read tunnel_write bind local_port post_handshake route
          connectors create udp_tunnel r w p bs
        ≡ (x, ok (some s))
      → (bs ≢ []) × Opened p r w s
  with_packet-eq-ok r w p [] x s e = absurd (cc)
  with_packet-eq-ok r w p (b ∷ bs) x s e = ((λ f. cc), opened-eq-ok p r w _ x s e refl)

  parsed-eq-ok :
      (r : SR) (w : SW) (o : Result UdpPacket) (x : Bool) (s : Tunnel)
      → parsed recv_from send_to tunnel_read tunnel_write bind local_port post_handshake route
          connectors create udp_tunnel r w o
        ≡ (x, ok (some s))
      → (p : UdpPacket) × (o ≡ ok p) × (p.payload ≢ []) × Opened p r w s
  parsed-eq-ok r w (ok p) x s e =
      let (n, h) = with_packet-eq-ok r w p p.payload x s e in (p, refl, n, h)
  parsed-eq-ok r w (err k m) x s e = absurd (cc)
  parsed-eq-ok r w panics x s e = absurd (cc)

  received-eq-ok :
      (w : SW) (o : Result (Datagram × SR)) (x : Bool) (s : Tunnel)
      → received recv_from send_to tunnel_read tunnel_write bind local_port post_handshake route
          connectors create udp_tunnel w o
        ≡ (x, ok (some s))
      → (data' : Bytes) × (src_addr : SocketAddr) × (r : SR) × (o ≡ ok ((data', src_addr), r))
        × ((p : UdpPacket) × (parse data' src_addr ≡ ok p) × (p.payload ≢ []) × Opened p r w s)
  received-eq-ok w (ok ((data', src_addr), r)) x s e =
      (data', src_addr, r, refl, parsed-eq-ok r w (parse data' src_addr) x s e)
  received-eq-ok w (err k m) x s e = absurd (cc)
  received-eq-ok w panics x s e = absurd (cc)

  bound-eq-ok :
      (o : Result (SR × SW)) (stream stream' : S) (r : SR) (w : SW)
      → bound recv_from send_to tunnel_read tunnel_write bind local_port post_handshake route
          connectors create udp_tunnel o stream
        ≡ ok (stream', r, w)
      → (o ≡ ok (r, w))
        × ((udp_port : ℕ) × (local_port r ≡ ok udp_port)
            × (post_handshake false udp_port stream ≡ ok stream'))
  bound-eq-ok (ok (r₀, w₀)) stream stream' r w e =
      let (n, e₁, f₁) = >>=-eq-ok (local_port r₀) _ e in
      let (st, e₂, f₂) = >>=-eq-ok (post_handshake false n stream) _ f₁ in
      let g : st ≡ stream' = cc in
      let g₁ : r₀ ≡ r = cc in
      let g₂ : w₀ ≡ w = cc in (rw (g₁, g₂) refl, (n, (rw g₁ at e₁), (rw g at e₂)))
  bound-eq-ok (err k m) stream stream' r w e =
      let (st, e₁, f₁) = >>=-eq-ok (post_handshake true 0 stream) _ e in absurd (cc)
  bound-eq-ok panics stream stream' r w e = absurd (cc)

  pub handle-First :
      (stream stream' : S) (x : Bool) (s : Tunnel)
      → handle_udp_connection recv_from send_to tunnel_read tunnel_write bind local_port
          post_handshake route connectors create udp_tunnel stream
        ≡ ok (stream', (x, ok (some s)))
      → First stream stream' s
  unfolding handle_udp_connection announce first_packet
  handle-First stream stream' x s e =
      let ((st, r, w), e₁, f₁) =
        >>=-eq-ok
          (bound recv_from send_to tunnel_read tunnel_write bind local_port post_handshake route
            connectors create udp_tunnel bind stream)
          _ e in
      let g : st ≡ stream' = cc in
      let h : received recv_from send_to tunnel_read tunnel_write bind local_port post_handshake
            route connectors create udp_tunnel w (recv_from r)
          ≡ (x, ok (some s)) =
        cc in
      let (is_bound, (udp_port, port_is, told)) = bound-eq-ok bind stream st r w e₁ in
      let (data', src_addr, r', came, (p, parses, non_empty, opens)) =
        received-eq-ok w (recv_from r) x s h in
      record {
        r = r;
        w = w;
        udp_port = udp_port;
        is_bound = is_bound;
        port_is = port_is;
        told = rw g at told;
        data' = data';
        src_addr = src_addr;
        r' = r';
        came = came;
        p = p;
        parses = parses;
        non_empty = non_empty;
        opens = opens;
      }
