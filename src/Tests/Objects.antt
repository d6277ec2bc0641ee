-- ===== src/Tests/Objects.antt =====
-- Runs of an object: a SOCKS5 client that is connected, one that is not, and a UDP association.
use rog.Prelude.{
  ℕ, ◌≡◌, refl, Bool, false, Option, none, some, List, [], ◌∷◌, ◌++◌, Result, ok, err, other, arith,
  take,
}
use rog.Prelude.Word.{Bytes, codes, to_be, from_be}
use rog.Prelude.Maps.{Map, insert}
use rog.RunStream.{arrives}
use rog.RunStream.Exact.{bytes}
use rog.Text.{is_utf8, ipv4_to_string}
use rog.Address.{RunAddr, decode_addr}
use rog.UdpPacket.{UdpPacket, parse, parse_from}
use rog.Listener.Connection.{Connection}
use rog.Listener.Socks5
use rog.Socks5.{no_auth}
use rog.Socks5.Hello
use rog.Socks5.Request.Exact.{domain}
use rog.Relay.Connectors.{get_or_create}
use rog.Relay.Copy.{Relay, Side, reads, writes, on_right, relay}
use rog.Relay.Copy.Order.{Copied}
use rog.Relay.Copy.Runs.{begin}
use rog.Relay.Copy.First.{Follows}
use rog.Relay.Udp.{Datagram, loop_b, loop_c, handle_udp_connection}
use rog.Relay.Udp.Associated.{udp_associated}
use rog.Relay.Udp.Setup.{First}
use rog.Object.{unreachable, serve, serve_all}
use rog.Object.Kept.{connector_kept}
use rog.Object.Socks.{socks5_answered}

abbrev route : RunAddr → Bytes
route addr = codes "out"

abbrev connectors : Map ℕ
connectors name = some 1

abbrev create : ℕ → Result ℕ
create conf = ok 7

abbrev connect : ℕ → Bytes → Result ℕ
connect c address = err other "refused"

abbrev nothing_cached : Map ℕ
nothing_cached name = none

abbrev client : Connection
client = record {
  incoming =
      arrives (5 ∷ 1 ∷ 0 ∷ [])
      ∷ arrives (5 ∷ 1 ∷ 0 ∷ 3 ∷ 3 ∷ b'r' ∷ b'o' ∷ b'g' ∷ 1 ∷ 187 ∷ 9 ∷ [])
      ∷ [];
  out = record { written = []; room = 20 };
  protocol_name = [];
}

abbrev rog_443 : RunAddr
rog_443 = record { addr = codes "rog"; port = 443; udp = false }

socks5_answered_example :
    (c' : Connection) × (serve Socks5.handshake Socks5.post_handshake route connectors create
        connect nothing_cached client
      ≡ (insert (codes "out") 7 nothing_cached, unreachable (codes "out") (ok c')))
    × ((reply : Bytes) × (c'.out.written ≡ 5 ∷ no_auth ∷ [] ++ reply)
        × (take 8 reply ≡ 5 ∷ 1 ∷ 0 ∷ 1 ∷ 0 ∷ 0 ∷ 0 ∷ 0 ∷ []))
    × (bytes c'.incoming ≡ 9 ∷ [])
unfolding Hello.contains is_utf8 get_or_create to_be
socks5_answered_example =
    socks5_answered route connectors create connect (0 ∷ []) 0 domain (codes "rog") 443 (9 ∷ [])
      client nothing_cached (insert (codes "out") 7 nothing_cached) 1 7 (err other "refused") refl
      (omega arith) ((λ e. cc), (λ e. cc)) (λ e. refl) (omega arith) ((λ e. cc), ((λ e. cc), tt))
      (omega arith) refl refl refl refl (λ e. cc)

connector_kept_example :
    let later =
      serve_all Socks5.handshake Socks5.post_handshake route connectors create connect
        (insert (codes "out") 7 nothing_cached)
        (client ∷ client ∷ []) in
    get_or_create create (codes "out") 2 later ≡ ok (7, later)
unfolding get_or_create
connector_kept_example =
    connector_kept create Socks5.handshake Socks5.post_handshake route connectors connect
      (codes "out") 1 2 7 nothing_cached (insert (codes "out") 7 nothing_cached)
      (client ∷ client ∷ []) refl

abbrev datagrams : List Datagram
datagrams =
    (0 ∷ 0 ∷ 0 ∷ 1 ∷ 127 ∷ 0 ∷ 0 ∷ 1 ∷ 0 ∷ 80 ∷ 4 ∷ [], record { ip = codes "127.0.0.1"; port = 5 })
    ∷ []

abbrev recv_from : List Datagram → Result (Datagram × List Datagram)
recv_from [] = err other "closed"
recv_from (d ∷ ds) = ok (d, ds)

abbrev send_to : Bytes → Bytes → List Bytes → Result (List Bytes)
send_to payload address sent = ok (sent ++ payload ∷ [])

abbrev tunnel_read : List UdpPacket → Result (UdpPacket × List UdpPacket)
tunnel_read [] = err other "closed"
tunnel_read (p ∷ ps) = ok (p, ps)

abbrev tunnel_write : UdpPacket → List UdpPacket → Result (List UdpPacket)
tunnel_write p sent = ok (sent ++ p ∷ [])

abbrev first : UdpPacket
first = record {
  meta = record {
    dst_addr = codes "127.0.0.1";
    dst_port = 80;
    src_addr = codes "127.0.0.1";
    src_port = 5;
  };
  payload = 4 ∷ [];
}

abbrev bind : Result (List Datagram × List Bytes)
bind = ok (datagrams, [])

abbrev local_port : List Datagram → Result ℕ
local_port r = ok 6

abbrev post_handshake : Bool → ℕ → Bytes → Result Bytes
post_handshake error port told = ok (told ++ port ∷ [])

abbrev udp_tunnel : ℕ → Bytes → Result (Option (List UdpPacket × List UdpPacket))
udp_tunnel c src = ok (some (first ∷ [], []))

abbrev tunnel :
    Relay
      (loop_b recv_from send_to tunnel_read tunnel_write)
      (loop_c recv_from send_to tunnel_read tunnel_write)
tunnel =
    begin (loop_b recv_from send_to tunnel_read tunnel_write)
      (loop_c recv_from send_to tunnel_read tunnel_write) [] (first ∷ []) 1 (first ∷ []) [] 0

abbrev turns : List (
    Side
      (loop_b recv_from send_to tunnel_read tunnel_write)
      (loop_c recv_from send_to tunnel_read tunnel_write))
turns = on_right reads ∷ on_right writes ∷ []

udp_associated_example :
    let s' =
      relay
        (loop_b recv_from send_to tunnel_read tunnel_write)
        (loop_c recv_from send_to tunnel_read tunnel_write)
        tunnel
        turns in
    (f : First recv_from send_to tunnel_read tunnel_write bind local_port post_handshake route
      connectors create udp_tunnel []
      (6 ∷ [])
      tunnel)
    × Follows (loop_b recv_from send_to tunnel_read tunnel_write) f.p f.r' f.opens.tw s'.left
    × Copied (loop_c recv_from send_to tunnel_read tunnel_write) f.opens.tr f.w 0 s'.right
unfolding handle_udp_connection parse parse_from decode_addr ipv4_to_string from_be
udp_associated_example =
    udp_associated recv_from send_to tunnel_read tunnel_write bind local_port post_handshake route
      connectors create udp_tunnel [] (6 ∷ []) false tunnel turns refl
