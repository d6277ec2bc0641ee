-- ===== src/Listener/RevGrpc.antt =====
-- src/listener/rev_grpc.rs: the client that keeps a manager stream to the service and opens a stream
-- for each message on it. The service is a record of what `client.stream` and `client.udp` give for the
-- messages that the client has sent; the log lines and the pauses are left out.
pub mod Session
use rog.Prelude.{
  ℕ, ◌==◌, if◌then◌else◌, Bool, true, false, Option, none, some, List, [], ◌∷◌, Result, ok, err,
  other, panics, unwrap, ◌>>=◌, ◌++◌,
}
use rog.Prelude.Word.{Bytes, codes}
use rog.Prelude.Channel.{Event, message, status, Streaming, Sender}
use rog.Proto.{
  ManagerReq, ManagerRes, RevStreamReq, RevStreamRes, RevUdpReq, RevUdpRes, AddrInfo, as_u16,
  unwrap_or_default,
}
use rog.Address.{RunAddr}
use rog.Streams.{StreamInfo}
use rog.Streams.RevGrpcClient
use rog.Streams.RevGrpcClient.{RunStream}
use rog.UdpStreams.RevGrpc.{ClientReader, ClientWriter}

-- `None` is a status, which is only logged.
pub record Client : Type 0 where
  pub stream : List RevStreamReq → Option (Streaming RevStreamRes)
  pub udp : List RevUdpReq → Option (Streaming RevUdpRes)

-- The channels to `accept`.
pub record Accepting : Type 0 where
  pub tx : Sender RunStream
  pub udp_tx : Sender (ClientReader × ClientWriter)

abbrev pub first_stream_req : Bytes → Bytes → RevStreamReq
first_stream_req auth conn_id = record { auth = auth; payload = none; conn_id = some conn_id }

abbrev pub first_udp_req : Bytes → Bytes → RevUdpReq
first_udp_req auth conn_id = record {
  auth = auth;
  payload = none;
  addr_info = none;
  conn_id = some conn_id;
}

abbrev pub with_info : AddrInfo → StreamInfo → StreamInfo
with_info addr_info x = record x {
  protocol_name = codes "rev_grpc";
  src_addr = some addr_info.src_addr;
  src_port = some (as_u16 addr_info.src_port);
  dst_addr = some addr_info.dst_addr;
  dst_port = some (as_u16 addr_info.dst_port);
  udp = some false;
}

-- A value is put into a channel; the flag is false where the other end is gone.
abbrev offered : {A : Type 0} → A → Sender A → Bool × Sender A
offered a s = if s.closed then (false, s) else (true, record s { sent = s.sent ++ a ∷ [] })

-- The stream that the service granted.
abbrev stream_granted :
    ManagerRes
    → RevStreamReq
    → Option (Streaming RevStreamRes)
    → Accepting
    → Result (Bool × Accepting)
stream_granted req first none q = ok (true, q)
stream_granted req first (some stream) q = do
  let new_stream = RevGrpcClient.new stream (record { sent = first ∷ []; closed = false })
  addr_info ← unwrap req.addr_info
  let (sent, tx) = offered (RevGrpcClient.set_info (with_info addr_info) new_stream) q.tx
  ok (sent, record q { tx = tx })

abbrev udp_granted : Bytes → RevUdpReq → Option (Streaming RevUdpRes) → Accepting → Bool × Accepting
udp_granted auth first none q = (true, q)
udp_granted auth first (some stream) q =
    let pair : ClientReader × ClientWriter = (
      record { reader = stream },
      record { writer = record { sent = first ∷ []; closed = false }; auth = auth },
    ) in
    let (sent, udp_tx) = offered pair q.udp_tx in (sent, record q { udp_tx = udp_tx })

-- The flag is false for `Err(())`.
unfoldable pub handle_manage_req :
    Client → Bytes → ManagerRes → Accepting → Result (Bool × Accepting)
handle_manage_req client auth req q = unwrap req.udp >>= λ udp.
    if udp == 0
    then (let first = first_stream_req auth (unwrap_or_default req.conn_id) in
        stream_granted req first (client.stream (first ∷ [])) q)
    else (let first = first_udp_req auth (unwrap_or_default req.conn_id) in
        ok (udp_granted auth first (client.udp (first ∷ [])) q))

-- The loop over the messages of a manager stream, until it ends or fails or nobody accepts any more.
unfoldable pub manage : Client → Bytes → Streaming ManagerRes → Accepting → Result Accepting
manage client auth [] q = ok q
manage client auth (status e ∷ s) q = ok q
manage client auth (message req ∷ s) q = handle_manage_req client auth req q >>= λ (goes_on, q).
    elim goes_on [ true ↦ manage client auth s q | false ↦ ok q ]

-- The first message on a manager stream.
unfoldable pub greeting : Bytes → Bytes → ManagerReq
greeting auth tag = record { auth = auth; tag = tag; addr_info = none; udp = none; conn_id = none }

-- What a round of the outer loop meets: a service that does not answer, one that refuses the manager
-- stream, or the messages of that stream.
pub data Attempt : Type 0 where
  unreachable refused : Attempt
  opened : Streaming ManagerRes → Attempt

-- The outer loop, as far as it has come, with the service that `greeting` was sent to.
unfoldable pub listen : Client → Bytes → List Attempt → Accepting → Result Accepting
listen client auth [] q = ok q
listen client auth (unreachable ∷ rest) q = listen client auth rest q
listen client auth (refused ∷ rest) q = listen client auth rest q
listen client auth (opened s ∷ rest) q = manage client auth s q >>= λ q. listen client auth rest q

-- The two arms of `accept`, on what its channels hold; `none` is a closed channel.
unfoldable pub accept_udp :
    Option (ClientReader × ClientWriter) → Result (ClientReader × ClientWriter)
accept_udp none = err other "udp receiver closed"
accept_udp (some pair) = ok pair

unfoldable pub accept_stream : Option RunStream → Result RunStream
accept_stream none = err other "receiver closed"
accept_stream (some stream) = ok stream

unfoldable pub handshake : RunStream → Result (RunAddr × Option Bytes)
handshake stream = do
  let info = RevGrpcClient.get_info stream
  addr ← unwrap info.dst_addr
  port ← unwrap info.dst_port
  udp ← unwrap info.udp
  ok (record { addr = addr; port = port; udp = udp }, none)
