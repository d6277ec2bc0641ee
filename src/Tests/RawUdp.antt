-- ===== src/Tests/RawUdp.antt =====
-- A run of the relay of a UDP tunnel.
use rog.Prelude.{ℕ, refl, Option, none, some, List, [], ◌∷◌, ◌++◌, Result, ok, err, other}
use rog.Prelude.Word.{Bytes, codes}
use rog.Prelude.Maps.{Map, insert}
use rog.Address.{RunAddr}
use rog.UdpPacket.{UdpPacket}
use rog.Relay.Connectors.{get_or_create}
use rog.Relay.Copy.{Relay, reads, writes, on_left, on_right, relay}
use rog.Relay.Copy.Order.{Copied}
use rog.Relay.Copy.First.{Follows}
use rog.Relay.Copy.Runs.{begin}
use rog.Relay.RawUdp.{loop_b, loop_c, handle_raw_udp}
use rog.Relay.RawUdp.Carried.{Started, raw_udp_relayed}

abbrev route : RunAddr → Bytes
route addr = codes "out"

abbrev connectors : Map ℕ
connectors name = some 1

abbrev create : ℕ → Result ℕ
create conf = ok 7

abbrev nothing_cached : Map ℕ
nothing_cached name = none

abbrev tunnel_read : List UdpPacket → Result (UdpPacket × List UdpPacket)
tunnel_read [] = err other "closed"
tunnel_read (p ∷ ps) = ok (p, ps)

abbrev tunnel_write : UdpPacket → List UdpPacket → Result (List UdpPacket)
tunnel_write p sent = ok (sent ++ p ∷ [])

abbrev first : UdpPacket
first = record {
  meta = record { dst_addr = codes "a"; dst_port = 80; src_addr = codes "b"; src_port = 5 };
  payload = 4 ∷ [];
}

abbrev udp_tunnel : ℕ → Bytes → Result (Option (List UdpPacket × List UdpPacket))
udp_tunnel c src = ok (some (first ∷ [], []))

abbrev packets : List UdpPacket
packets = first ∷ first ∷ []

abbrev raw_tunnel :
    Relay
      (loop_b tunnel_read tunnel_write tunnel_read tunnel_write create udp_tunnel)
      (loop_c tunnel_read tunnel_write tunnel_read tunnel_write create udp_tunnel)
raw_tunnel =
    begin (loop_b tunnel_read tunnel_write tunnel_read tunnel_write create udp_tunnel)
      (loop_c tunnel_read tunnel_write tunnel_read tunnel_write create udp_tunnel) (first ∷ [])
      (first ∷ []) 1 (first ∷ []) [] 0

raw_udp_relayed_example :
    let s' =
      relay
        (loop_b tunnel_read tunnel_write tunnel_read tunnel_write create udp_tunnel)
        (loop_c tunnel_read tunnel_write tunnel_read tunnel_write create udp_tunnel)
        raw_tunnel
        (on_left reads ∷ on_left writes ∷ on_right reads ∷ []) in
    (f : Started tunnel_read tunnel_write tunnel_read tunnel_write create udp_tunnel route
      connectors nothing_cached
      (insert (codes "out") 7 nothing_cached)
      packets
      []
      raw_tunnel)
    × Follows
        (loop_b tunnel_read tunnel_write tunnel_read tunnel_write create udp_tunnel)
        f.first
        f.r'
        f.tw
        s'.left
    × Copied
        (loop_c tunnel_read tunnel_write tunnel_read tunnel_write create udp_tunnel)
        f.tr
        []
        0
        s'.right
unfolding handle_raw_udp get_or_create
raw_udp_relayed_example =
    raw_udp_relayed tunnel_read tunnel_write tunnel_read tunnel_write create udp_tunnel route
      connectors nothing_cached (insert (codes "out") 7 nothing_cached) packets [] raw_tunnel
      (on_left reads ∷ on_left writes ∷ on_right reads ∷ []) refl
