-- ===== src/Listener/RevGrpc/Session.antt =====
-- A whole reverse connection: src/connector/rev_grpc.rs asks, src/listener/rev_grpc.rs opens the
-- stream, and the service gives it to the call that asked.
use rog.Prelude.{
  ℕ, suc, ◌≡◌, refl, bytes_eq_refl, Bool, true, false, none, some, [], ◌∷◌, ◌++◌, ok, arith,
}
use rog.Prelude.Word.{Bytes}
use rog.Prelude.Channel.{message, Streaming}
use rog.Prelude.Maps.{set, insert, remove}
use rog.Proto.{ManagerRes, RevStreamReq, RevStreamRes, as_u16}
use rog.Address.{parse_address}
use rog.Address.RoundTrip.{parse_address-eq-ok}
use rog.Streams.RevGrpcServer
use rog.Streams.RevGrpcClient
use rog.Connector.RevGrpc.Clients.{Managers, Session, send, authorized, granted}
use rog.Connector.RevGrpc.Rendezvous.{
  Config, Call, Phase, Slot, Pending, Pool, claimed, served, delivered, empty, sending, waiting,
  done, begin, send_request, receive, request, serve,
}
use rog.Connector.RevGrpc.{stream_service, stream_request, fresh_sender, connect}
use rog.Listener.RevGrpc.{
  Client, Accepting, opened, first_stream_req, with_info, handle_manage_req, manage, listen,
  handshake,
}

module _ (uuid : ℕ → Bytes) (cfg : Config) (addr host : Bytes) (port n : ℕ) (m : Managers)
    (p : Pool stream_service) (s : Session) (parsed : parse_address addr ≡ ok (host, port))
    (online : m.managers cfg.name ≡ some n) (at : m.sessions n ≡ some s)
    (open' : s.closed ≡ false) where
  abbrev req : ManagerRes
  req = stream_request (uuid p.next) (host, port)

  abbrev call : Phase stream_service → Slot stream_service → Bool → Call stream_service
  call ph slot deaf = record {
    manager_tx = n;
    info = (host, port);
    pw = cfg.pw;
    phase = ph;
    slot = slot;
    deaf = deaf;
  }

  abbrev entry : Pending stream_service
  entry = record { tx = p.next; info = (host, port); pw = cfg.pw }

  abbrev begun : Pool stream_service
  begun = record p {
    pending = insert (uuid p.next) entry p.pending;
    calls = set p.next (call sending empty false) p.calls;
    next = suc p.next;
  }

  connect_lem : connect uuid cfg addr m p ≡ ok begun
  unfolding connect begin
  connect_lem = rw (parsed, online) refl

  abbrev informed : Managers
  informed = record m { sessions = set n (record s { sent = s.sent ++ req ∷ [] }) m.sessions }

  abbrev waits : Pool stream_service
  waits = record begun { calls = set p.next (call waiting empty false) begun.calls }

  send_request_lem : send_request stream_service uuid p.next m begun ≡ (informed, waits)
  unfolding send_request send
  send_request_lem = ground arith

  module _ (auth : Bytes) (in_stream : Streaming RevStreamReq)
      (allowed : authorized cfg.pw auth ≡ true) (b : ℕ) (bs : Bytes)
      (named : uuid p.next ≡ b ∷ bs) where
    abbrev first : RevStreamReq
    first = first_stream_req auth (uuid p.next)

    abbrev conn : RevGrpcServer.RunStream
    conn = RevGrpcServer.new in_stream fresh_sender host port

    abbrev claims : Pool stream_service
    claims = record waits {
      pending = remove (uuid p.next) waits.pending;
      handlers =
          set p.arrivals (record { events = message first ∷ in_stream; stage = claimed entry })
            p.handlers;
      arrivals = suc p.arrivals;
    }

    request_lem : request stream_service uuid (message first ∷ in_stream) waits ≡ claims
    unfolding request
    request_lem = rw (named, bytes_eq_refl (b ∷ bs)) refl

    abbrev serves : Pool stream_service
    serves = record claims {
      calls = set p.next (call waiting (delivered conn p.arrivals) false) claims.calls;
      handlers =
          set p.arrivals
            (record { events = message first ∷ in_stream; stage = served entry granted })
            claims.handlers;
    }

    serve_lem : serve stream_service uuid p.arrivals claims ≡ serves
    unfolding serve
    serve_lem = ground arith

    receive_lem :
        (receive stream_service uuid p.next serves).calls p.next
        ≡ some (call (done (ok conn)) (delivered conn p.arrivals) true)
    unfolding receive
    receive_lem = ground arith

    module _ (client : Client) (q : Accepting) (reader : Streaming RevStreamRes)
        (answers : client.stream (first ∷ []) ≡ some reader) (accepts : q.tx.closed ≡ false) where
      -- What the acceptor of the listener gets.
      pub record Accepted (q' : Accepting) : Type 0 where
        pub stream : RevGrpcClient.RunStream
        pub accepted : q'.tx.sent ≡ q.tx.sent ++ stream ∷ []
        pub reads : stream.reader ≡ reader
        pub wrote : stream.writer.sent ≡ first ∷ []
        pub shaken : handshake stream ≡ ok (record { addr = host; port = port; udp = false }, none)

      abbrev client_stream : RevGrpcClient.RunStream
      client_stream =
          RevGrpcClient.set_info
            (with_info (record { dst_addr = host; dst_port = port; src_addr = []; src_port = 0 }))
            (RevGrpcClient.new reader (record { sent = first ∷ []; closed = false }))

      abbrev accepting' : Accepting
      accepting' = record q {
        tx = record { sent = q.tx.sent ++ client_stream ∷ []; closed = q.tx.closed };
      }

      manage_lem : manage client auth (message req ∷ []) q ≡ ok accepting'
      unfolding manage handle_manage_req
      manage_lem = rw (answers, accepts) refl

      accepting'-Accepted : Accepted accepting'
      unfolding RevGrpcClient.set_info RevGrpcClient.new handshake RevGrpcClient.get_info
      accepting'-Accepted =
          let (_, small, _) = parse_address-eq-ok addr host port parsed in
          let port_is : as_u16 port ≡ port = omega arith in
          record {
            stream = client_stream;
            accepted = refl;
            reads = refl;
            wrote = refl;
            shaken = rw port_is refl;
          }

      -- A `connect` to an address that `parse_address` takes, over a connector whose client has a
      -- session. The call enters its id and sends one message to that session. The listener, with the
      -- password of the connector if that has one, opens a stream for the message (which the service
      -- answers with `reader`): the acceptor gets it, its handshake returns the host and the port that
      -- were asked for, and it has sent one message. The service that receives that message gives
      -- `connect` the stream to the same host and port, which reads what follows the message.
      pub rev_session :
          (p' : Pool stream_service) × (connect uuid cfg addr m p ≡ ok p')
          × (let (m', asked) = send_request stream_service uuid p.next m p' in
              (m'.sessions n ≡ some (record s { sent = s.sent ++ req ∷ [] }))
              × ((q' : Accepting) × (listen client auth (opened (message req ∷ []) ∷ []) q ≡ ok q')
                  × Accepted q')
              × (let answered = receive stream_service uuid p.next (
                    serve stream_service uuid p.arrivals
                      (request stream_service uuid (message first ∷ in_stream) asked)) in
                  (c : Call stream_service) × (answered.calls p.next ≡ some c)
                  × (c.phase ≡ done (ok conn))))
      unfolding listen
      rev_session = (
        begun,
        connect_lem,
        rw send_request_lem (
          ground arith,
          (accepting', rw manage_lem refl, accepting'-Accepted),
          (
            call (done (ok conn)) (delivered conn p.arrivals) true,
            rw (request_lem, serve_lem) receive_lem,
            refl,
          ),
        ),
      )
