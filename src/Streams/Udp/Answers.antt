-- ===== src/Streams/Udp/Answers.antt =====
-- src/stream/udp.rs: the names that answers carry.
use rog.Prelude.{◌≡◌, refl, none, some, List, Result, ok}
use rog.Prelude.Word.{Bytes}
use rog.Address.{with_port}
use rog.UdpPacket.{UdpPacket, SocketAddr}
use rog.Streams.Udp.{new, Net, resolve_dst_addr, after_writes, read}
use rog.Streams.Udp.Resolved.{
  Named, Inv, new-Inv, after_writes-Inv, after_writes-Keeps, cached_or-ok, cached_or-Inv,
}

-- A fresh socket. After any writes, a packet to a name (not an IP address) is resolved to an address, and
-- any writes follow, to names and addresses. Then the name is still resolved to that address, which
-- changes nothing. A datagram that comes from there is read as a packet with the datagram's payload
-- and port, and in place of the IP address with a name that was resolved to this address: it is never
-- the bare address, nor a name that was not resolved to it.
pub answer_restored :
    {R : Type 0} (net : Net) (recv_from : R → Result ((Bytes × SocketAddr) × R))
    (before later : List UdpPacket) (p : UdpPacket) (src addr : SocketAddr) (buf : Bytes) (r r' : R)
    → net.parse_ip p.dst_addr ≡ none
    → (resolve_dst_addr net p.dst_addr p.dst_port (after_writes net before new)).0 ≡ ok addr
    → recv_from r ≡ ok ((buf, addr), r')
    → let s =
        after_writes net later
          (resolve_dst_addr net p.dst_addr p.dst_port (after_writes net before new)).1 in
      (resolve_dst_addr net p.dst_addr p.dst_port s ≡ (ok addr, s))
      × ((d : Bytes) × Named net d addr s
          × (read recv_from (some src) s r
              ≡ ok (
                record {
                  meta = record {
                    dst_addr = d;
                    dst_port = addr.port;
                    src_addr = src.ip;
                    src_port = src.port;
                  };
                  payload = buf;
                },
                r',
              )))
unfolding resolve_dst_addr read
answer_restored net recv_from before later p src addr buf r r' n e came =
    let s₀ = after_writes net before new in
    let s₁ = (resolve_dst_addr net p.dst_addr p.dst_port s₀).1 in
    let s = after_writes net later s₁ in
    let i₁ : Inv net s₁ =
      cached_or-Inv net p.dst_addr p.dst_port s₀ _ refl
        (after_writes-Inv net before new (new-Inv net)) in
    let i = after_writes-Inv net later s₁ i₁ in
    let k₁ = cached_or-ok net p.dst_addr p.dst_port addr s₀ _ refl e in
    let k = after_writes-Keeps net (with_port p.dst_addr p.dst_port) addr later s₁ k₁ in
    let (d, named) = i.forth p.dst_addr p.dst_port addr n k in
    (rw k refl, (d, i.back addr d named, rw (came, named) refl))
