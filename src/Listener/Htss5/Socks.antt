-- ===== src/Listener/Htss5/Socks.antt =====
-- src/listener/htss5.rs: a SOCKS5 client.
use rog.Prelude.{
  ℕ, ◌-◌, ◌≤◌, ◌<◌, ◌≡◌, refl, ◌==◌, true, [], ◌∷◌, ◌++◌, ok, length, take_all, drop_all,
  drop-append, le→leb, write_all, ◌⊎◌,
}
use rog.Prelude.Word.{Bytes, codes}
use rog.Text.{is_utf8}
use rog.RunStream.{arrives, Stream, read}
use rog.Address.RoundTrip.{text, try_from-request}
use rog.Listener.Connection.{Connection, write}
use rog.Listener.Http.{Urls}
use rog.Listener.Htss5.{non_empty, socks5, handshake}
use rog.Socks5.{no_auth, cmd_connect, cmd_udp}
use rog.Socks5.Hello
use rog.Socks5.Hello.Exact.{hello, encode as encode_hello, hello-parse_bytes-encode}
use rog.Socks5.Request.Exact.{AddrType, domain, Fits, encode as encode_request, parse_bytes-encode}

module _ (urls : Urls) (server_id methods junk : Bytes) (cmd rsv : ℕ) (typ : AddrType)
    (addr : Bytes) (port : ℕ) (extra : Bytes) (c : Connection) (s : Stream) where
  abbrev pub first_piece : Bytes
  first_piece = encode_hello methods ++ junk

  abbrev pub second_piece : Bytes
  second_piece = encode_request cmd rsv typ addr port ++ extra

  -- A client sends a hello that offers "no authentication" in one piece and a well-formed request (its
  -- domain name, if it is one, in UTF-8) in the next, each of at most 2048 bytes, and the connection
  -- takes two bytes. The handshake writes version 5 and method 0, drops what stands behind the hello in
  -- its piece, and returns the destination, with what stands behind the request as the cached payload
  -- if there is anything. The rest of the stream is left, and the connection is marked as SOCKS5.
  pub pieces_answered :
      Hello.contains (hello (length methods) methods) no_auth ≡ true
      → (cmd ≡ cmd_connect) ⊎ (cmd ≡ cmd_udp)
      → Fits typ addr
      → (typ ≡ domain → is_utf8 addr ≡ true)
      → port < 65536
      → c.incoming ≡ arrives first_piece ∷ arrives second_piece ∷ s
      → (length first_piece ≤ 2048) × (length second_piece ≤ 2048)
      → 2 ≤ c.out.room
      → handshake urls server_id c
        ≡ ok (
          (record { addr = text typ addr; port = port; udp = cmd == cmd_udp }, non_empty extra),
          record {
            incoming = s;
            out = record { written = c.out.written ++ 5 ∷ no_auth ∷ []; room = c.out.room - 2 };
            protocol_name = codes "socks5";
          },
        )
  unfolding handshake socks5 read write write_all Hello.to_bytes
  pieces_answered auth hc f u hp i (n₁, n₂) room =
      rw
        (
          i,
          take_all 2048 first_piece n₁,
          drop_all 2048 first_piece n₁,
          hello-parse_bytes-encode methods junk,
          auth,
          le→leb 2 c.out.room room,
          take_all 2048 second_piece n₂,
          drop_all 2048 second_piece n₂,
          parse_bytes-encode cmd rsv typ addr port extra hc f hp,
          try_from-request cmd rsv typ addr port f u hp,
          drop-append (encode_request cmd rsv typ addr port) extra,
        )
        refl
