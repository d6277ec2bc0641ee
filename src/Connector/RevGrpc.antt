-- ===== src/Connector/RevGrpc.antt =====
-- src/connector/rev_grpc.rs: the connector that asks a connected client for a stream, and the
-- service on which the client then opens it. A call that is dropped by its caller, and a send that waits
-- for room, make no step.
pub mod Clients
pub mod Rendezvous
pub mod Runs
pub mod Once
use rog.Prelude.{
  ℕ, none, some, Option, List, [], ◌∷◌, false, Result, ok, err, panics, ◌>>=◌, if◌then◌else◌,
}
use rog.Prelude.Word.{Bytes}
use rog.Prelude.Channel.{Event, Streaming, Sender}
use rog.Prelude.Maps.{Map}
use rog.Proto.{ManagerReq, ManagerRes, RevStreamReq, RevUdpReq, RevUdpRes}
use rog.Address.{parse_address}
use rog.Streams.RevGrpcServer
use rog.UdpStreams.RevGrpc.{ServerReader, ServerWriter}
use rog.Connector.RevGrpc.Clients.{
  Managers, none_connected, manager, hang_up, disconnect, granted, refused, internal,
}
use rog.Connector.RevGrpc.Rendezvous.{
  Config, Service, Pool, nothing_pending, begin, send_request, receive, time_out, clean, request,
  serve,
}

-- The sending end of a new channel.
abbrev pub fresh_sender : {M : Type 0} → Sender M
fresh_sender = record { sent = []; closed = false }

abbrev pub stream_request : Bytes → Bytes × ℕ → ManagerRes
stream_request conn_id (host, port) = record {
  addr_info = some (record { dst_addr = host; dst_port = port; src_addr = []; src_port = 0 });
  udp = some 0;
  conn_id = some conn_id;
}

abbrev open_stream : RevStreamReq → Streaming RevStreamReq → Bytes × ℕ → RevGrpcServer.RunStream
open_stream first_msg in_stream (host, port) = RevGrpcServer.new in_stream fresh_sender host port

abbrev pub stream_service : Service
stream_service = record {
  Info = Bytes × ℕ;
  Req = RevStreamReq;
  Conn = RevGrpcServer.RunStream;
  auth = λ r. r.auth;
  conn_id = λ r. r.conn_id;
  request = stream_request;
  open_conn = open_stream;
  undelivered = granted;
  send_failed = "failed to send to manager";
  channel_closed = "stream channel closed";
  no_answer = "timeout waiting for reverse stream";
  missing_first = "missing first stream message";
  missing_conn_id = "missing conn_id";
  invalid_auth = "invalid auth";
  unknown_conn_id = "conn_id not found or expired";
}

abbrev udp_request : Bytes → Unit {0} → ManagerRes
udp_request conn_id _ = record { addr_info = none; udp = some 1; conn_id = some conn_id }

abbrev open_udp : RevUdpReq → Streaming RevUdpReq → Unit {0} → ServerReader × ServerWriter
open_udp first_msg in_stream _ =
    (record { reader = in_stream; auth = first_msg.auth }, record { writer = fresh_sender })

abbrev pub udp_service : Service
udp_service = record {
  Info = Unit {0};
  Req = RevUdpReq;
  Conn = ServerReader × ServerWriter;
  auth = λ r. r.auth;
  conn_id = λ r. r.conn_id;
  request = udp_request;
  open_conn = open_udp;
  undelivered = refused internal "failed to deliver udp pair to connector";
  send_failed = "failed to send udp manager req";
  channel_closed = "udp channel closed before listener connected";
  no_answer = "timeout waiting for reverse udp stream";
  missing_first = "missing first udp message";
  missing_conn_id = "missing conn_id in udp";
  invalid_auth = "invalid udp auth";
  unknown_conn_id = "udp conn_id not found or expired";
}

-- `RevGrpcState`, with the tasks that share it.
pub record System : Type 0 where
  pub managers : Managers
  pub streams : Pool stream_service
  pub udps : Pool udp_service

unfoldable pub new : System
new = record {
  managers = none_connected;
  streams = nothing_pending stream_service;
  udps = nothing_pending udp_service;
}

-- A step of a task: of the call or the request with a number.
pub data Task : Type 0 where
  sends receives times_out cleans serves : ℕ → Task

pub data Action : Type 0 where
  client_connects : Streaming ManagerReq → Action
  client_hangs_up client_disconnects : ℕ → Action
  connects : Config → Bytes → Action
  opens_udp_tunnel : Config → Action
  stream_requested : Streaming RevStreamReq → Action
  udp_requested : Streaming RevUdpReq → Action
  stream_task udp_task : Task → Action

module _ (uuid : ℕ → Bytes) where
  -- The start of `connect`.
  unfoldable pub connect :
      Config → Bytes → Managers → Pool stream_service → Result (Pool stream_service)
  connect cfg addr m p =
      parse_address addr >>= λ (host, port). begin stream_service uuid cfg (host, port) m p

  -- The start of `udp_tunnel`, which does not read its argument.
  unfoldable pub udp_tunnel : Config → Managers → Pool udp_service → Result (Pool udp_service)
  udp_tunnel cfg m p = begin udp_service uuid cfg tt m p

  -- A request to the service, up to where it holds an entry or is turned away.
  abbrev pub stream : Streaming RevStreamReq → Pool stream_service → Pool stream_service
  stream events p = request stream_service uuid events p

  abbrev pub udp : Streaming RevUdpReq → Pool udp_service → Pool udp_service
  udp events p = request udp_service uuid events p

  module _ (v : Service) where
    unfoldable pub task_step : Task → Managers → Pool v → Managers × Pool v
    task_step (Task.sends i) m p = send_request v uuid i m p
    task_step (Task.receives i) m p = (m, receive v uuid i p)
    task_step (Task.times_out i) m p = (m, time_out v uuid i p)
    task_step (Task.cleans i) m p = (m, clean v uuid i p)
    task_step (Task.serves h) m p = (m, serve v uuid h p)

    abbrev pub begun : Pool v → Result (Pool v) → Pool v
    begun p (ok p') = p'
    begun p (err k m) = p
    begun p panics = p

  module _ (pw_map : Map (Option Bytes)) where
    unfoldable pub step : Action → System → System
    step (Action.client_connects events) s = record s {
      managers = (manager pw_map events s.managers).1;
    }
    step (Action.client_hangs_up n) s = record s { managers = hang_up n s.managers }
    step (Action.client_disconnects n) s = record s { managers = disconnect n s.managers }
    step (Action.connects cfg addr) s = record s {
      streams = begun stream_service s.streams (connect cfg addr s.managers s.streams);
    }
    step (Action.opens_udp_tunnel cfg) s = record s {
      udps = begun udp_service s.udps (udp_tunnel cfg s.managers s.udps);
    }
    step (Action.stream_requested events) s = record s { streams = stream events s.streams }
    step (Action.udp_requested events) s = record s { udps = udp events s.udps }
    step (Action.stream_task t) s =
        let (m, p) = task_step stream_service t s.managers s.streams in
        record s { managers = m; streams = p }
    step (Action.udp_task t) s =
        let (m, p) = task_step udp_service t s.managers s.udps in
        record s { managers = m; udps = p }

    -- A schedule of the tasks; what is not enabled changes nothing.
    unfoldable pub run : System → List Action → System
    run s [] = s
    run s (a ∷ rest) = run (step a s) rest
