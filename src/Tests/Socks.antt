-- ===== src/Tests/Socks.antt =====
-- Runs of the SOCKS5 handshake and of UDP packets.
use rog.Prelude.{
  ◌≡◌, refl, true, ◌==◌, if◌then◌else◌, inl, none, [], ◌∷◌, ◌++◌, ok, err, invalid_data, length,
  take, drop, arith,
}
use rog.Prelude.Word.{Bytes, codes, to_be}
use rog.RunStream.{Stream, arrives, filled}
use rog.RunStream.Exact.{bytes, IsLive}
use rog.Text.{is_utf8}
use rog.Address.RoundTrip.{text}
use rog.Listener.Connection.{Connection}
use rog.Listener.Socks5.{handshake}
use rog.Listener.Socks5.Handshake.{handshake-exact}
use rog.Socks5.{no_auth, cmd_udp}
use rog.Socks5.Hello
use rog.Socks5.Hello.Exact.{hello, encode as encode_hello, hello_closed_early}
use rog.Socks5.Request
use rog.Socks5.Request.Exact.{ipv4, domain, request, encode as encode_request, parse-encode}
use rog.UdpPacket.{UdpPacket, SocketAddr, parse}
use rog.UdpPacket.RoundTrip.{encode as encode_datagram, packet, parse-encode_datagram}

abbrev methods : Bytes
methods = 2 ∷ 0 ∷ []

abbrev host : Bytes
host = b'r' ∷ b'o' ∷ b'g' ∷ []

abbrev hello_pieces : Stream
hello_pieces = arrives (5 ∷ []) ∷ arrives (2 ∷ 2 ∷ []) ∷ arrives (0 ∷ 9 ∷ []) ∷ []

hello_pieces-IsLive : IsLive hello_pieces
hello_pieces-IsLive = ((λ e. cc), ((λ e. cc), ((λ e. cc), tt)))

abbrev cut_short : Stream
cut_short = arrives (5 ∷ 3 ∷ 2 ∷ []) ∷ []

hello_closed_early_example :
    (s' : Stream) × (Hello.parse cut_short ≡ ok (hello 3 (filled 3 (2 ∷ [])), s'))
    × (Hello.contains (hello 3 (filled 3 (2 ∷ []))) no_auth ≡ true)
hello_closed_early_example =
    hello_closed_early 3 (2 ∷ []) cut_short (λ e. absurd (omega arith)) (omega arith)
      ((λ e. cc), tt) refl

abbrev request_pieces : Stream
request_pieces =
    arrives (take 6 (encode_request 1 0 domain host 443))
    ∷ arrives (drop 6 (encode_request 1 0 domain host 443) ++ 9 ∷ [])
    ∷ []

request_pieces-IsLive : IsLive request_pieces
unfolding to_be
request_pieces-IsLive = ((λ e. cc), ((λ e. cc), tt))

request_pieces_bytes : bytes request_pieces ≡ encode_request 1 0 domain host 443 ++ 9 ∷ []
unfolding to_be
request_pieces_bytes = refl

parse-encode_example :
    (s' : Stream) × (Request.parse request_pieces ≡ ok (request 1 0 domain host 443, s'))
    × (bytes s' ≡ 9 ∷ [])
    × (IsLive s')
parse-encode_example =
    parse-encode 1 0 domain host 443 (9 ∷ []) request_pieces (inl refl) (omega arith)
      (λ e. absurd (omega arith)) (omega arith) request_pieces-IsLive request_pieces_bytes

abbrev client : Connection
client = record {
  incoming = arrives (encode_hello methods) ∷ arrives (encode_request 1 0 domain host 443) ∷ [];
  out = record { written = []; room = 20 };
  protocol_name = [];
}

offers_no_auth : Hello.contains (hello 2 methods) no_auth ≡ true
unfolding Hello.contains
offers_no_auth = refl

host-is_utf8 : is_utf8 host ≡ true
unfolding is_utf8
host-is_utf8 = refl

handshake-exact_example :
    (c' : Connection) × (handshake client
      ≡ ok ((record { addr = text domain host; port = 443; udp = 1 == cmd_udp }, none), c'))
    × (c'.out.written ≡ 5 ∷ no_auth ∷ [])
    × (c'.out.room ≡ 18)
    × (bytes c'.incoming ≡ [])
handshake-exact_example =
    handshake-exact methods 1 0 domain host 443 [] client offers_no_auth (inl refl) (omega arith)
      ((λ e. absurd (omega arith)), (λ e. absurd (omega arith))) (λ e. host-is_utf8) (omega arith)
      ((λ e. cc), ((λ e. cc), tt)) (omega arith) refl

abbrev sender : SocketAddr
sender = record { ip = codes "10.0.0.1"; port = 5353 }

abbrev one : Bytes
one = 1 ∷ []

parse-encode_datagram_example :
    parse (encode_datagram 0 0 0 ipv4 (8 ∷ 8 ∷ 8 ∷ 8 ∷ []) 53 (1 ∷ [])) sender ≡ (
      if length one == 0
      then err invalid_data "udp parse packet too short2"
      else ok (packet (text ipv4 (8 ∷ 8 ∷ 8 ∷ 8 ∷ [])) 53 sender (1 ∷ [])))
parse-encode_datagram_example =
    parse-encode_datagram 0 0 ipv4 (8 ∷ 8 ∷ 8 ∷ 8 ∷ []) 53 (1 ∷ []) sender refl (λ e. cc)
      (omega arith)

abbrev answer : UdpPacket
answer = record {
  meta = record {
    dst_addr = codes "10.0.0.1";
    dst_port = 5353;
    src_addr = codes "8.8.8.8";
    src_port = 53;
  };
  payload = 1 ∷ [];
}
