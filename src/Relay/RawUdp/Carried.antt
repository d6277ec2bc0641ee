-- ===== src/Relay/RawUdp/Carried.antt =====
-- src/object/raw_udp.rs: what the loops carry, from the first packet on.
use rog.Prelude.{
  ℕ, ◌≡◌, refl, sym, ap, ◌∙◌, Option, none, some, List, Result, ok, err, panics, ok_or, >>=-eq-ok,
  arith, true, not_found, other, ErrorKind, String,
}
use rog.Prelude.Word.{Bytes}
use rog.Prelude.Maps.{Map}
use rog.Address.{RunAddr, with_port}
use rog.UdpPacket.{UdpPacket}
use rog.Relay.Copy.{Relay, Side, relay, u64}
use rog.Relay.Copy.Order.{Copied}
use rog.Relay.Copy.Runs.{begin, relay_copies}
use rog.Relay.Copy.First.{Follows, Copied-Follows}
use rog.Relay.Connectors.{get_or_create, kept}
use rog.Relay.RawUdp.{
  payload_size, loop_b, loop_c, Choice, choose, open_tunnel, with_choice, handle_raw_udp,
}

module _ {R W TR TW Conf C : Type 0} (read : R → Result (UdpPacket × R))
    (write : UdpPacket → W → Result W) (tunnel_read : TR → Result (UdpPacket × TR))
    (tunnel_write : UdpPacket → TW → Result TW) (create : Conf → Result C)
    (udp_tunnel : C → Bytes → Result (Option (TR × TW))) (route : RunAddr → Bytes)
    (connectors : Map Conf) where
  -- The first packet opened a tunnel of the connector that its route names, and went into it.
  pub record Started (cache cache' : Map C) (r : R) (w : W)
      (s : Relay
        (loop_b read write tunnel_read tunnel_write create udp_tunnel)
        (loop_c read write tunnel_read tunnel_write create udp_tunnel))
      : Type 0 where
    pub first : UdpPacket
    pub r' : R
    pub came : read r ≡ ok (first, r')
    pub name : Bytes
    pub routed : name ≡ route (record { addr = first.dst_addr; port = first.dst_port; udp = true })
    pub conf : Conf
    pub configured : connectors name ≡ some conf
    pub connector : C
    pub got : get_or_create create name conf cache ≡ ok (connector, cache')
    pub tr : TR
    pub tw : TW
    pub tw' : TW
    pub tunnelled :
        udp_tunnel connector (with_port first.src_addr first.src_port) ≡ ok (some (tr, tw))
    pub wrote : tunnel_write first tw ≡ ok tw'
    pub begins :
        s
        ≡ begin
            (loop_b read write tunnel_read tunnel_write create udp_tunnel)
            (loop_c read write tunnel_read tunnel_write create udp_tunnel)
            r'
            tw'
            (u64 (payload_size first))
            tr
            w
            0

  ok_or-eq-ok :
      {A : Type 0} (o : Option A) (k : ErrorKind) (m : String) (a : A)
      → ok_or o k m ≡ ok a
      → o ≡ some a
  ok_or-eq-ok none k m a e = absurd (cc)
  ok_or-eq-ok (some x) k m a e = cc

  with_choice-Started :
      (cache cache' : Map C) (r : R) (w : W)
      (s : Relay
        (loop_b read write tunnel_read tunnel_write create udp_tunnel)
        (loop_c read write tunnel_read tunnel_write create udp_tunnel))
      (o : Result (Choice read write tunnel_read tunnel_write create udp_tunnel))
      → choose read write tunnel_read tunnel_write create udp_tunnel route connectors r ≡ o
      → with_choice read write tunnel_read tunnel_write create udp_tunnel o cache w ≡ (cache', ok s)
      → Started cache cache' r w s
  unfolding choose with_choice open_tunnel
  with_choice-Started cache cache' r w s (ok (first, r', name, conf)) c e =
      let ((first₁, r₁), came, f₁) = >>=-eq-ok (read r) _ c in
      let (conf₁, e₂, f₂) = >>=-eq-ok (ok_or (connectors _) not_found _) _ f₁ in
      let a : first₁ ≡ first = cc in
      let a' : r₁ ≡ r' = cc in
      let n : route (record { addr = first₁.dst_addr; port = first₁.dst_port; udp = true }) ≡ name =
        cc in
      let k : conf₁ ≡ conf = cc in
      let second = ap (λ x. x.1) e in
      let ((connector, cache₁), e₃, f₃) =
        >>=-eq-ok (get_or_create create name conf cache) _ second in
      let same : kept create cache (get_or_create create name conf cache) ≡ cache' =
        ap (λ x. x.0) e in
      let c₁ : cache₁ ≡ cache' = (rw e₃ at same) in
      let (tunnel, e₄, f₄) = >>=-eq-ok (udp_tunnel connector _) _ f₃ in
      let ((tr, tw), e₅, f₅) = >>=-eq-ok (ok_or tunnel other _) _ f₄ in
      let (tw', e₆, f₆) = >>=-eq-ok (tunnel_write first tw) _ f₅ in
      let t : tunnel ≡ some (tr, tw) = ok_or-eq-ok tunnel other _ (tr, tw) e₅ in
      record {
        first = first;
        r' = r';
        came = came ∙ ap ok (λ i. (a i, a' i));
        name = name;
        routed = sym (rw a at n);
        conf = conf;
        configured = ok_or-eq-ok (connectors name) not_found _ conf (rw (n, k) at e₂);
        connector = connector;
        got = e₃ ∙ ap (λ m. ok (connector, m)) c₁;
        tr = tr;
        tw = tw;
        tw' = tw';
        tunnelled = rw t at e₄;
        wrote = e₆;
        begins = (let q : _ ≡ s = cc in sym q);
      }
  with_choice-Started cache cache' r w s (err k m) c e = absurd (cc)
  with_choice-Started cache cache' r w s panics c e = absurd (cc)

  -- If the relay of a UDP tunnel starts, the first packet's destination, as a UDP one, was routed to a
  -- configured connector, which the object has or has now created and kept, and that connector opened a
  -- tunnel, whose first packet it is. After any schedule of the loops and of the cancellation of their
  -- token, the tunnel has been sent this packet and then packets that were read, in that order, each with
  -- a payload, and all of those that were to be sent but at most one at the end; what is counted is the
  -- sum of their payloads modulo 2 ^ 64. The answers follow the packets of the tunnel in the same way.
  pub raw_udp_relayed :
      (cache cache' : Map C) (r : R) (w : W)
      (s : Relay
        (loop_b read write tunnel_read tunnel_write create udp_tunnel)
        (loop_c read write tunnel_read tunnel_write create udp_tunnel))
      (schedule : List (
        Side
          (loop_b read write tunnel_read tunnel_write create udp_tunnel)
          (loop_c read write tunnel_read tunnel_write create udp_tunnel)))
      → handle_raw_udp read write tunnel_read tunnel_write create udp_tunnel route connectors cache
          r w
        ≡ (cache', ok s)
      → let s' =
          relay
            (loop_b read write tunnel_read tunnel_write create udp_tunnel)
            (loop_c read write tunnel_read tunnel_write create udp_tunnel)
            s
            schedule in
        (f : Started cache cache' r w s) × Follows
          (loop_b read write tunnel_read tunnel_write create udp_tunnel)
          f.first
          f.r'
          f.tw
          s'.left
        × Copied (loop_c read write tunnel_read tunnel_write create udp_tunnel) f.tr w 0 s'.right
  unfolding handle_raw_udp
  raw_udp_relayed cache cache' r w s schedule e =
      let f =
        with_choice-Started cache cache' r w s
          (choose read write tunnel_read tunnel_write create udp_tunnel route connectors r) refl
          e in
      let n : ℕ = u64 (payload_size f.first) in
      let (left, right) =
        relay_copies (loop_b read write tunnel_read tunnel_write create udp_tunnel)
          (loop_c read write tunnel_read tunnel_write create udp_tunnel) f.r' f.tw' n f.tr w 0
          schedule (omega arith) (omega arith) in
      (
        f,
        Copied-Follows (loop_b read write tunnel_read tunnel_write create udp_tunnel) f.first f.r'
            f.tw f.tw' n _ f.wrote refl (rw (sym f.begins) at left),
        rw (sym f.begins) at right,
      )
