-- ===== src/Listener/Socks5/Handshake.antt =====
-- The handshake of src/listener/socks5.rs, from the client's first byte to the destination.
use rog.Prelude.{
  ℕ, ◌-◌, ◌≤◌, ◌<◌, ◌≡◌, ◌≢◌, refl, Bool, true, false, ◌==◌, if◌then◌else◌, le→leb, ◌⊎◌, none, [],
  ◌∷◌, ◌++◌, ok, length, arith, write_all, take, drop,
}
use rog.Prelude.Word.{Bytes, codes, to_be, from_be}
use rog.RunStream.Exact.{bytes, IsLive}
use rog.Text.{is_utf8}
use rog.Address.RoundTrip.{text, try_from-request}
use rog.Listener.Connection.{Connection, write}
use rog.Listener.Socks5.{handshake, post_handshake}
use rog.Socks5.{no_auth, cmd_connect, cmd_udp}
use rog.Socks5.Hello
use rog.Socks5.Confirm
use rog.Socks5.Hello.Exact.{hello, encode as encode_hello, hello-parse-encode}
use rog.Socks5.Request.Exact.{AddrType, domain, Fits, encode as encode_request, parse-encode}

-- A client sends a hello that offers "no authentication" and then a well-formed request (its domain
-- name, if it is one, not empty and UTF-8), in pieces of any sizes, and the connection takes the two
-- bytes of the answer. The handshake writes version 5 and method 0, returns the destination with
-- no cached payload, and leaves the bytes behind the request unread.
pub handshake-exact :
    (methods : Bytes) (cmd rsv : ℕ) (typ : AddrType) (addr : Bytes) (port : ℕ) (rest : Bytes)
    (c : Connection)
    → Hello.contains (hello (length methods) methods) no_auth ≡ true
    → (cmd ≡ cmd_connect) ⊎ (cmd ≡ cmd_udp)
    → Fits typ addr
    → (length methods ≢ 0) × (length addr ≢ 0)
    → (typ ≡ domain → is_utf8 addr ≡ true)
    → port < 65536
    → IsLive c.incoming
    → 2 ≤ c.out.room
    → bytes c.incoming ≡ encode_hello methods ++ (encode_request cmd rsv typ addr port ++ rest)
    → (c' : Connection) × (handshake c
        ≡ ok ((record { addr = text typ addr; port = port; udp = cmd == cmd_udp }, none), c'))
      × (c'.out.written ≡ c.out.written ++ 5 ∷ no_auth ∷ [])
      × (c'.out.room ≡ c.out.room - 2)
      × (bytes c'.incoming ≡ rest)
unfolding handshake write write_all Hello.to_bytes
handshake-exact methods cmd rsv typ addr port rest c auth hc f (hm, ha) u hp live room b =
    let (s₁, e₁, b₁, l₁) =
      (hello-parse-encode methods (encode_request cmd rsv typ addr port ++ rest) c.incoming live
          b).0
        hm in
    let (s₂, e₂, b₂, l₂) = parse-encode cmd rsv typ addr port rest s₁ hc f ha hp l₁ b₁ in
    (
      record {
        incoming = s₂;
        out = record { written = c.out.written ++ 5 ∷ no_auth ∷ []; room = c.out.room - 2 };
        protocol_name = codes "socks5";
      },
      rw (e₁, auth, le→leb 2 c.out.room room, e₂, try_from-request cmd rsv typ addr port f u hp),
      refl,
      refl,
      b₂,
    )

abbrev confirmation : Bool → ℕ → Bytes
confirmation error port = Confirm.to_bytes (Confirm.new error port)

confirmation-shape :
    (error : Bool) (port : ℕ)
    → port < 65536
    → (length (confirmation error port) ≡ 10)
      × (take 8 (confirmation error port)
          ≡ 5 ∷ (if error then 1 else 0) ∷ 0 ∷ 1 ∷ 0 ∷ 0 ∷ 0 ∷ 0 ∷ [])
      × (from_be (drop 8 (confirmation error port)) ≡ port)
unfolding Confirm.to_bytes Confirm.new to_be from_be
confirmation-shape true port h = (refl, refl, omega arith)
confirmation-shape false port h = (refl, refl, omega arith)

-- The answer to a request is ten bytes: version 5, a status that is 1 for an error and 0 else, the
-- address type IPv4 with address 0.0.0.0, and a big-endian port that reads back as the 16-bit port
-- which the handler passes. It is written in one piece where the connection takes ten bytes.
pub post_handshake-exact :
    (error : Bool) (port : ℕ) (c : Connection)
    → port < 65536
    → 10 ≤ c.out.room
    → (c' : Connection) × (post_handshake error port c ≡ ok c')
      × ((reply : Bytes) × (c'.out.written ≡ c.out.written ++ reply)
          × (take 8 reply ≡ 5 ∷ (if error then 1 else 0) ∷ 0 ∷ 1 ∷ 0 ∷ 0 ∷ 0 ∷ 0 ∷ [])
          × (from_be (drop 8 reply) ≡ port))
      × (c'.incoming ≡ c.incoming)
unfolding post_handshake write write_all
post_handshake-exact error port c h room =
    let (len, shape, read) = confirmation-shape error port h in
    let reply = confirmation error port in
    (
      record c {
        out = record { written = c.out.written ++ reply; room = c.out.room - length reply };
      },
      rw (le→leb (length reply) c.out.room (omega arith)),
      (reply, refl, shape, read),
      refl,
    )
