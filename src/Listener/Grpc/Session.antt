-- ===== src/Listener/Grpc/Session.antt =====
-- src/connector/grpc.rs against src/listener/grpc.rs: what `connect` sends is what the acceptor reads.
use rog.Prelude.{
  ℕ, ◌%◌, ◌≡◌, refl, sym, ap, if◌then◌else◌, bytes_eq, not, false, true, Bool, none, some, List, [],
  ◌∷◌, ◌++◌, Result, ok, err, other, arith, Bool-cases, inl, inr, ◌>>=◌,
}
use mathlib.Core.List.{map}
use rog.Prelude.Word.{Bytes, codes}
use rog.Prelude.Channel.{message, Streaming, Sender, send}
use rog.Proto.{StreamReq, StreamRes}
use rog.Address.{parse_address}
use rog.Address.RoundTrip.{parse_address-eq-ok}
use rog.Streams.GrpcClient
use rog.Streams.GrpcServer
use rog.Connector.Grpc.{GrpcRunConnector, opening, sent_or, with_info, connect}
use rog.Listener.Grpc.{Server, fresh, stream, handshake}

if-not : {A : Type 0} (b : Bool) (x y : A) → (if not b then x else y) ≡ (if b then y else x)
if-not true x y = refl
if-not false x y = refl

abbrev sent_of : Result GrpcClient.RunStream → List StreamReq
sent_of (ok c) = c.writer.sent
sent_of _ = []

sends_opening :
    (host pw : Bytes) (port : ℕ) (resp : Streaming StreamRes) (tx : Sender StreamReq)
    (client : GrpcClient.RunStream)
    → tx.sent ≡ []
    → (sent_or (send other (opening pw host port) tx) >>= λ tx.
        ok (GrpcClient.set_info (with_info host port) (GrpcClient.new resp tx)))
      ≡ ok client
    → client.writer.sent ≡ opening pw host port ∷ []
unfolding send GrpcClient.new GrpcClient.set_info
sends_opening host pw port resp tx client n e = elim (Bool-cases tx.closed) [
  | inl b ↦ absurd (let q = rw b at e in cc)
  | inr b ↦ let q = rw (b, n) at e in ap (λ r. sent_of r) (sym q)
]

-- `connect` succeeds on a fresh call of the service. Then the service, which is given what was sent so far
-- and whatever follows, puts a stream into its channel if its receiver is there, behind those that are
-- in it; and the handshake of the acceptor on that stream returns the host and the port that were asked
-- for and leaves what follows to be read, if the passwords are the same, and refuses it else.
pub grpc_session :
    (self : GrpcRunConnector) (server : Server) (addr host pw auth : Bytes) (port : ℕ)
    (resp : Streaming StreamRes) (tx : Sender StreamReq) (client : GrpcClient.RunStream)
    (more : Streaming StreamReq)
    → parse_address addr ≡ ok (host, port)
    → self.cfg.pw ≡ some pw
    → (self.client.stream ≡ some (resp, tx)) × (tx.sent ≡ [])
    → connect self addr ≡ ok client
    → server.sender.closed ≡ false
    → (s : GrpcServer.RunStream) × (stream (map message client.writer.sent ++ more) server
        ≡ ok (record server {
          sender = record { sent = server.sender.sent ++ s ∷ []; closed = false };
        }))
      × ((s' : GrpcServer.RunStream) × (handshake auth s ≡ (
            if bytes_eq pw auth
            then ok ((record { addr = host; port = port; udp = false }, none), s')
            else err other "invalid auth"))
          × (s'.reader ≡ more))
unfolding connect stream handshake send GrpcServer.new GrpcServer.handshake GrpcServer.set_info
    GrpcClient.new GrpcClient.set_info
grpc_session self server addr host pw auth port resp tx client more pa cp (cs, fresh_tx) e open' =
    let sent = sends_opening host pw port resp tx client fresh_tx (rw (pa, cs, cp) at e) in
    let (_, low, _) = parse_address-eq-ok addr host port pa in
    let p : port % 65536 ≡ port = omega arith in
    let s = GrpcServer.new (message (opening pw host port) ∷ more) fresh in
    (
      s,
      rw (sent, open') refl,
      (
        record s { reader = more; info = record (s.info) { protocol_name = codes "grpc" } },
        rw p (if-not (bytes_eq pw auth) _ _),
        refl,
      ),
    )
