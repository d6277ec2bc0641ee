-- ===== src/Listener/Grpc.antt =====
-- src/listener/grpc.rs: the service that takes the streams of `RogService`, and the acceptor behind its
-- channels. Its server is that of tonic.
pub mod Session
use rog.Prelude.{
  not, if◌then◌else◌, bytes_eq, false, Option, none, some, [], Result, ok, err, panics, other,
  unwrap, ◌>>=◌,
}
use rog.Prelude.Word.{Bytes, codes}
use rog.Prelude.Channel.{Event, Streaming, Sender, send}
use rog.Proto.{StreamReq, UdpReq, UdpRes}
use rog.Address.{RunAddr}
use rog.Streams.GrpcServer
use rog.Streams.GrpcServer.{RunStream}
use rog.UdpStreams.Grpc.{ServerReader, ServerWriter}

abbrev pub UdpEnds : Type 0
UdpEnds = Streaming UdpReq × Sender (Event UdpRes) × Bytes

-- The channels to the acceptor, and the password of the listener.
pub record Server : Type 0 where
  pub sender : Sender RunStream
  pub udp_sender : Sender UdpEnds
  pub pw : Option Bytes

-- A fresh channel for the answers.
abbrev pub fresh : {M : Type 0} → Sender M
fresh = record { sent = []; closed = false }

-- The two calls of the service; an error is the status `Internal`.
unfoldable pub stream : Streaming StreamReq → Server → Result Server
stream request self = do
  sender ← send other (GrpcServer.new request fresh) self.sender
  ok (record self { sender = sender })

unfoldable pub udp : Streaming UdpReq → Server → Result Server
udp request self = do
  pw ← unwrap self.pw
  udp_sender ← send other (request, fresh, pw) self.udp_sender
  ok (record self { udp_sender = udp_sender })

-- What comes out of the channel whose arm of the `select!` is taken.
unfoldable pub accept_udp : Option UdpEnds → Result (ServerReader × ServerWriter)
accept_udp none = err other "receiver closed"
accept_udp (some (r, w, a)) = ok (record { reader = r; auth = a }, record { writer = w })

unfoldable pub accept_stream : Option RunStream → Result RunStream
accept_stream none = err other "receiver closed"
accept_stream (some s) = ok s

abbrev pub authorized :
    Bytes → Option (RunAddr × Bytes) × RunStream → Result ((RunAddr × Option Bytes) × RunStream)
authorized auth (none, s) = err other "handshake failed"
authorized auth (some (addr, a), s) =
    if not (bytes_eq a auth) then err other "invalid auth" else ok ((addr, none), s)

unfoldable pub handshake : Bytes → RunStream → Result ((RunAddr × Option Bytes) × RunStream)
handshake auth s = do
  let s = GrpcServer.set_info (λ x. record x { protocol_name = codes "grpc" }) s
  found ← GrpcServer.handshake s
  authorized auth found
