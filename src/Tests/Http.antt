-- ===== src/Tests/Http.antt =====
-- Runs of the HTTP and mixed acceptors, with a crate `url` that knows one host.
use rog.Prelude.{◌≡◌, refl, ◌⊎◌, false, none, some, [], ◌∷◌, ◌++◌, ok, err, other, inl, arith}
use rog.Prelude.Word.{Bytes, codes, to_be}
use rog.Text.{is_utf8}
use rog.Text.Search.{find, is_prefix, contains, split_lines, split_spaces, to_lowercase}
use rog.RunStream.{arrives, read}
use rog.Listener.Connection.{Connection}
use rog.Listener.Http.{Urls, crlf, crlf_crlf, established, via_line, handshake}
use rog.Listener.Http.Loop.{forwarded_refused}
use rog.Listener.Http.Connect.{request, connect_answered}
use rog.Listener.Htss5
use rog.Listener.Htss5.Socks.{pieces_answered}
use rog.Socks5.Hello
use rog.Socks5.Request.Exact.{domain}

abbrev urls : Urls
urls = record {
  Url = Bytes;
  parse = λ s. some s;
  host_str = λ u. some (codes "rog");
  port_or_known_default = λ u. some 80;
}

abbrev id : Bytes
id = codes "me"

abbrev asked : Bytes
asked = codes "GET http://rog/ HTTP/1.1" ++ (crlf ++ (codes "A: b" ++ crlf_crlf))

abbrev passed_on : Bytes
passed_on =
    codes "GET http://rog/ HTTP/1.1" ++ (crlf ++ (via_line id ++ (codes "A: b" ++ crlf_crlf)))

abbrev arriving : Bytes → Connection
arriving d = record {
  incoming = arrives d ∷ [];
  out = record { written = []; room = 100 };
  protocol_name = [];
}

forwarded_refused_example :
    (handshake urls id (arriving passed_on) ≡ err other "Loop detected")
    ⊎ (handshake urls id (arriving passed_on) ≡ err other "invalid utf-8 sequence")
unfolding handshake find is_prefix read is_utf8 split_lines split_spaces to_lowercase contains
forwarded_refused_example =
    forwarded_refused urls id asked passed_on (codes "GET http://rog/ HTTP/1.1") _ [] [] _
      (arriving asked) _ (arriving passed_on) (omega arith) (refl, omega arith) refl refl
      (refl, omega arith)

abbrev tunnel : Bytes
tunnel = codes "A: b" ++ (crlf_crlf ++ codes "xy")

connect_answered_example :
    handshake urls id (arriving (request (codes "rog:80") tunnel))
    ≡ ok (
      (record { addr = codes "rog"; port = 80; udp = false }, none),
      record {
        incoming = [];
        out = record { written = established; room = 61 };
        protocol_name = codes "http";
      },
    )
unfolding is_utf8 contains is_prefix find
connect_answered_example =
    connect_answered urls id (codes "rog:80") tunnel (codes "rog") 80 (codes "http://rog:80")
      (arriving (request (codes "rog:80") tunnel)) []
      (record { no_cr = omega arith; no_space = omega arith; no_slash = refl; no_scheme = refl })
      (refl, omega arith) refl refl refl refl (omega arith)

abbrev pieces : Connection
pieces = record {
  incoming =
      arrives (5 ∷ 1 ∷ 0 ∷ 9 ∷ [])
      ∷ arrives (5 ∷ 1 ∷ 0 ∷ 3 ∷ 3 ∷ b'r' ∷ b'o' ∷ b'g' ∷ 1 ∷ 187 ∷ 7 ∷ [])
      ∷ [];
  out = record { written = []; room = 100 };
  protocol_name = [];
}

pieces_answered_example :
    Htss5.handshake urls id pieces
    ≡ ok (
      (record { addr = codes "rog"; port = 443; udp = false }, some (7 ∷ [])),
      record {
        incoming = [];
        out = record { written = 5 ∷ 0 ∷ []; room = 98 };
        protocol_name = codes "socks5";
      },
    )
unfolding is_utf8 to_be Hello.contains
pieces_answered_example =
    pieces_answered urls id (0 ∷ []) (9 ∷ []) 1 0 domain (codes "rog") 443 (7 ∷ []) pieces [] refl
      (inl refl) (omega arith) (λ e. refl) (omega arith) refl (omega arith, omega arith)
      (omega arith)
