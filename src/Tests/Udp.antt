-- ===== src/Tests/Udp.antt =====
-- A run of a UDP socket that resolves two names to one address.
use rog.Prelude.{◌≡◌, refl, true, bytes_eq, if◌then◌else◌, none, some, List, [], ◌∷◌, Result, ok}
use rog.Prelude.Word.{Bytes, codes}
use rog.UdpPacket.{UdpPacket, SocketAddr}
use rog.Streams.Udp.{Net, new, after_writes, lookup, resolve_dst_addr, read}
use rog.Streams.Udp.Resolved.{Named}
use rog.Streams.Udp.Answers.{answer_restored}

abbrev server : SocketAddr
server = record { ip = codes "1.2.3.4"; port = 53 }

abbrev net : Net
net = record {
  parse_ip = λ s. if bytes_eq s (codes "1.1.1.1") then some s else none;
  is_ipv4 = λ s. true;
  prefers_ipv4 = ok true;
  lookup_host = λ s port. ok (server ∷ []);
}

abbrev to : Bytes → UdpPacket
to host = record {
  meta = record { dst_addr = host; dst_port = 53; src_addr = []; src_port = 0 };
  payload = [];
}

abbrev recv_from : List Bytes → Result ((Bytes × SocketAddr) × List Bytes)
recv_from [] = ok (([], server), [])
recv_from (d ∷ ds) = ok ((d, server), ds)

abbrev src : SocketAddr
src = record { ip = codes "127.0.0.1"; port = 9 }

answer_restored_example :
    let s =
      after_writes net
        (to (codes "b") ∷ [])
        (resolve_dst_addr net
          (codes "a")
          53
          (after_writes net (to (codes "1.1.1.1") ∷ []) new)).1 in
    (resolve_dst_addr net (codes "a") 53 s ≡ (ok server, s))
    × ((d : Bytes) × Named net d server s
        × (read recv_from (some src) s ((7 ∷ []) ∷ [])
            ≡ ok (
              record {
                meta = record {
                  dst_addr = d;
                  dst_port = 53;
                  src_addr = codes "127.0.0.1";
                  src_port = 9;
                };
                payload = 7 ∷ [];
              },
              [],
            )))
unfolding resolve_dst_addr after_writes new bytes_eq lookup
answer_restored_example =
    answer_restored net recv_from (to (codes "1.1.1.1") ∷ []) (to (codes "b") ∷ []) (to (codes "a"))
      src server (7 ∷ []) ((7 ∷ []) ∷ []) [] refl refl refl
