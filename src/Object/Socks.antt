-- ===== src/Object/Socks.antt =====
-- src/object.rs with the acceptor of src/listener/socks5.rs: from a client's first byte to its answer.
use rog.Prelude.{
  ℕ, ◌≤◌, ◌<◌, ◌≡◌, ◌≢◌, refl, ap, ◌∙◌, Bool, true, false, if◌then◌else◌, none, some, [], ◌∷◌, ◌++◌,
  Result, ok, err, panics, length, arith, inl, take,
}
use rog.Prelude.Word.{Bytes}
use rog.Prelude.Maps.{Map}
use rog.RunStream.Exact.{bytes, IsLive}
use rog.Text.{is_utf8}
use rog.Address.{RunAddr, endpoint}
use rog.Address.RoundTrip.{text}
use rog.Listener.Connection.{Connection}
use rog.Listener.Socks5
use rog.Listener.Socks5.Handshake.{handshake-exact, post_handshake-exact}
use rog.Socks5.{no_auth, cmd_connect}
use rog.Socks5.Hello
use rog.Socks5.Hello.Exact.{hello, encode as encode_hello}
use rog.Socks5.Request.Exact.{AddrType, domain, Fits, encode as encode_request}
use rog.Relay.Connectors.{get_or_create}
use rog.Object.{Outcome, unreachable, relays, crashed, serve, connected}

abbrev is_error : {A : Type 0} → Result A → Bool
is_error (ok a) = false
is_error (err k m) = true
is_error panics = true

abbrev pub outcome : {U : Type 0} → Bytes → RunAddr → Result U → Connection → Outcome Connection U
outcome name addr (ok u) c = relays addr none u c
outcome name addr (err k m) c = unreachable name (ok c)
outcome name addr panics c = crashed

module _ {U Conf C : Type 0} (route : RunAddr → Bytes) (connectors : Map Conf)
    (create : Conf → Result C) (connect : C → Bytes → Result U) (methods : Bytes) (rsv : ℕ)
    (typ : AddrType) (addr : Bytes) (port : ℕ) where
  abbrev dst : RunAddr
  dst = record { addr = text typ addr; port = port; udp = false }

  connected-outcome :
      (name : Bytes) (dst : RunAddr) (r : Result U) (c c' : Connection)
      → Socks5.post_handshake (is_error r) 0 c ≡ ok c'
      → r ≢ panics
      → connected Socks5.handshake Socks5.post_handshake route connectors create connect name dst
          none c r
        ≡ outcome name dst r c'
  connected-outcome name dst (ok u) c c' e np = rw e refl
  connected-outcome name dst (err k m) c c' e np = rw e refl
  connected-outcome name dst panics c c' e np = absurd (np refl)

  -- A SOCKS5 client that may connect without authentication asks for a destination whose route names a
  -- configured connector, which the object has or can create, and the acceptor's messages fit
  -- into the connection. If the connector reaches the destination, the two streams are relayed,
  -- with no cached payload; if it fails, they are not. Either way the client has been sent version 5 with
  -- method 0, then one reply of which the status is 0 exactly if the destination was reached, and what it
  -- sent behind its request is still to be read.
  pub socks5_answered :
      (rest : Bytes) (c : Connection) (cache cache' : Map C) (conf : Conf) (connector : C)
      (r : Result U)
      → Hello.contains (hello (length methods) methods) no_auth ≡ true
      → Fits typ addr
      → (length methods ≢ 0) × (length addr ≢ 0)
      → (typ ≡ domain → is_utf8 addr ≡ true)
      → port < 65536
      → IsLive c.incoming
      → 12 ≤ c.out.room
      → bytes c.incoming
        ≡ encode_hello methods ++ (encode_request cmd_connect rsv typ addr port ++ rest)
      → connectors (route dst) ≡ some conf
      → get_or_create create (route dst) conf cache ≡ ok (connector, cache')
      → connect connector (endpoint dst) ≡ r
      → r ≢ panics
      → (c' : Connection) × (serve Socks5.handshake Socks5.post_handshake route connectors create
            connect cache c
          ≡ (cache', outcome (route dst) dst r c'))
        × ((reply : Bytes) × (c'.out.written ≡ c.out.written ++ 5 ∷ no_auth ∷ [] ++ reply)
            × (take 8 reply ≡ 5 ∷ (if is_error r then 1 else 0) ∷ 0 ∷ 1 ∷ 0 ∷ 0 ∷ 0 ∷ 0 ∷ []))
        × (bytes c'.incoming ≡ rest)
  unfolding serve
  socks5_answered rest c cache cache' conf connector r auth f ne u hp live room b at got con np =
      let (c₁, e₁, w₁, n₁, b₁) =
        handshake-exact methods cmd_connect rsv typ addr port rest c auth (inl refl) f ne u hp live
          (omega arith) b in
      let room₁ : 10 ≤ c₁.out.room = omega arith in
      let (c₂, e₂, (reply, w₂, shape, back), i₂) =
        post_handshake-exact (is_error r) 0 c₁ (omega arith) room₁ in
      (
        c₂,
        rw (e₁, at, got, con)
            (ap (λ o. (cache', o)) (connected-outcome (route dst) dst r c₁ c₂ e₂ np)),
        (reply, w₂ ∙ rw w₁ refl, shape),
        (rw i₂ b₁),
      )
