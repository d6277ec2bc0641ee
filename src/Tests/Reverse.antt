-- ===== src/Tests/Reverse.antt =====
-- Runs of the reverse connector: a client with a session, a call that it answers, and a UDP tunnel that
-- times out. The ids are runs of ones.
use rog.Prelude.{
  ℕ, suc, ◌≡◌, ◌↔◌, refl, ap, sym, ◌∙◌, Bool, true, false, Option, none, some, List, [], ◌∷◌, ◌++◌,
  ok, length, replicate, length-replicate, arith,
}
use mathlib.Core.List.{map}
use rog.Prelude.Word.{Bytes, codes}
use rog.Prelude.Channel.{message}
use rog.Prelude.Maps.{Map}
use rog.Address.{parse_address}
use rog.Proto.{ManagerReq, RevStreamReq}
use rog.Connector.RevGrpc.Clients.{Managers, Session, granted, authorized, expected}
use rog.Connector.RevGrpc.Rendezvous.{
  Config, Pool, Call, Pending, done, delivered, served, sending, empty, nothing_pending,
  send_request, receive, request, serve,
}
use rog.Connector.RevGrpc.{
  Action, Task, stream_service, udp_service, new, run, connect, stream_request,
}
use rog.Connector.RevGrpc.Once.{
  stream, udp, pool, task, turns, run_answered, run_once_only, run_listed, run_managers,
  run_returns,
}
use rog.Connector.RevGrpc.Rendezvous.Once.{AnsweredBy, Claimed, Waiting, Over}
use rog.Streams.{default}
use rog.Streams.Cached.{cleared}
use rog.Streams.RevGrpcServer.{RunStream}
use rog.Listener.RevGrpc.{Client, Accepting, first_stream_req, listen, opened}
use rog.Listener.RevGrpc.Session.{Accepted, rev_session}

abbrev uuid : ℕ → Bytes
uuid i = replicate (suc i) 1

uuid_new : (i j : ℕ) → uuid i ≡ uuid j → i ≡ j
uuid_new i j e =
    omega
      (arith, ap length e, length-replicate {A = ℕ} (suc i) 1, length-replicate {A = ℕ} (suc j) 1)

abbrev pw_map : Map (Option Bytes)
pw_map k = some (some (codes "pw"))

abbrev cfg : Config
cfg = record { name = codes "home"; pw = some (codes "pw") }

abbrev hello : ManagerReq
hello = record {
  auth = codes "pw";
  tag = codes "home";
  addr_info = none;
  udp = none;
  conn_id = none;
}

abbrev first : RevStreamReq
first = first_stream_req (codes "pw") (uuid 0)

abbrev entry : Pending stream_service
entry = record { tx = 0; info = (codes "a", 80); pw = some (codes "pw") }

abbrev schedule : List Action
schedule =
    Action.client_connects (message hello ∷ [])
    ∷ Action.connects cfg (codes "a:80")
    ∷ Action.opens_udp_tunnel cfg
    ∷ Action.stream_task (Task.sends 0)
    ∷ Action.stream_requested (message first ∷ [])
    ∷ Action.stream_task (Task.serves 0)
    ∷ Action.stream_task (Task.receives 0)
    ∷ []

abbrev conn : RunStream
conn = record {
  reader = [];
  writer = record { sent = []; closed = false };
  cached = cleared;
  info = default;
  dst_addr = codes "a";
  dst_port = 80;
}

abbrev answered : Call stream_service
answered = record {
  manager_tx = 0;
  info = (codes "a", 80);
  pw = some (codes "pw");
  phase = done (ok conn);
  slot = delivered conn 0;
  deaf = true;
}

answered_is : (pool stream (run uuid pw_map new schedule)).calls 0 ≡ some answered
unfolding run rog.Connector.RevGrpc.step new connect rog.Connector.RevGrpc.udp_tunnel
    rog.Connector.RevGrpc.task_step rog.Connector.RevGrpc.Clients.manager
    rog.Connector.RevGrpc.Clients.none_connected rog.Connector.RevGrpc.Clients.send
    rog.Connector.RevGrpc.Rendezvous.begin rog.Connector.RevGrpc.Rendezvous.nothing_pending
    rog.Connector.RevGrpc.Rendezvous.send_request rog.Connector.RevGrpc.Rendezvous.receive
    rog.Connector.RevGrpc.Rendezvous.request rog.Connector.RevGrpc.Rendezvous.serve
    rog.Address.parse_address rog.Text.rsplit_once rog.Text.parse_u16 rog.Prelude.bytes_eq
    rog.Streams.RevGrpcServer.new
answered_is = refl

run_answered_example :
    (h : ℕ) × AnsweredBy stream_service uuid
      (pool stream (run uuid pw_map new schedule))
      0
      answered
      conn
      h
run_answered_example =
    run_answered uuid uuid_new pw_map stream schedule 0 answered conn answered_is refl

call_is : Claimed stream_service uuid (pool stream (run uuid pw_map new schedule)) 0 first
unfolding run rog.Connector.RevGrpc.step new connect rog.Connector.RevGrpc.udp_tunnel
    rog.Connector.RevGrpc.task_step rog.Connector.RevGrpc.Clients.manager
    rog.Connector.RevGrpc.Clients.none_connected rog.Connector.RevGrpc.Clients.send
    rog.Connector.RevGrpc.Rendezvous.begin rog.Connector.RevGrpc.Rendezvous.nothing_pending
    rog.Connector.RevGrpc.Rendezvous.send_request rog.Connector.RevGrpc.Rendezvous.receive
    rog.Connector.RevGrpc.Rendezvous.request rog.Connector.RevGrpc.Rendezvous.serve
    rog.Address.parse_address rog.Text.rsplit_once rog.Text.parse_u16 rog.Prelude.bytes_eq
    rog.Streams.RevGrpcServer.new
call_is = record {
  handler = record { events = message first ∷ []; stage = served entry granted };
  entry = entry;
  in_stream = [];
  there = refl;
  owns = refl;
  events = refl;
}

run_once_only_example : ◌≡◌ {A = ℕ} 0 0
run_once_only_example =
    run_once_only uuid uuid_new pw_map stream schedule 0 0 first first call_is call_is refl

abbrev tunnel_entry : Pending udp_service
tunnel_entry = record { tx = 0; info = tt; pw = some (codes "pw") }

listed_is : (pool udp (run uuid pw_map new schedule)).pending (uuid 0) ≡ some tunnel_entry
unfolding run rog.Connector.RevGrpc.step new connect rog.Connector.RevGrpc.udp_tunnel
    rog.Connector.RevGrpc.task_step rog.Connector.RevGrpc.Clients.manager
    rog.Connector.RevGrpc.Clients.none_connected rog.Connector.RevGrpc.Clients.send
    rog.Connector.RevGrpc.Rendezvous.begin rog.Connector.RevGrpc.Rendezvous.nothing_pending
    rog.Connector.RevGrpc.Rendezvous.send_request rog.Connector.RevGrpc.Rendezvous.receive
    rog.Connector.RevGrpc.Rendezvous.request rog.Connector.RevGrpc.Rendezvous.serve
    rog.Address.parse_address rog.Text.rsplit_once rog.Text.parse_u16 rog.Prelude.bytes_eq
    rog.Streams.RevGrpcServer.new
listed_is = refl

run_listed_example :
    Waiting udp_service uuid (pool udp (run uuid pw_map new schedule)) (uuid 0) tunnel_entry
run_listed_example = run_listed uuid uuid_new pw_map udp schedule (uuid 0) tunnel_entry listed_is

run_managers_example :
    let m = (run uuid pw_map new schedule).managers in
    (m.managers (codes "home") ≡ some 0) ↔ (
      (s : Session) × (m.sessions 0 ≡ some s)
      × (s.first_msg.tag ≡ codes "home")
      × (s.ended ≡ false)
      × (authorized (expected (pw_map (codes "home"))) s.first_msg.auth ≡ true))
run_managers_example = run_managers uuid uuid_new pw_map schedule 0 (codes "home")

abbrev tunnel : Call udp_service
tunnel = record {
  manager_tx = 0;
  info = tt;
  pw = some (codes "pw");
  phase = sending;
  slot = empty;
  deaf = false;
}

tunnel_is : (pool udp (run uuid pw_map new schedule)).calls 0 ≡ some tunnel
unfolding run rog.Connector.RevGrpc.step new connect rog.Connector.RevGrpc.udp_tunnel
    rog.Connector.RevGrpc.task_step rog.Connector.RevGrpc.Clients.manager
    rog.Connector.RevGrpc.Clients.none_connected rog.Connector.RevGrpc.Clients.send
    rog.Connector.RevGrpc.Rendezvous.begin rog.Connector.RevGrpc.Rendezvous.nothing_pending
    rog.Connector.RevGrpc.Rendezvous.send_request rog.Connector.RevGrpc.Rendezvous.receive
    rog.Connector.RevGrpc.Rendezvous.request rog.Connector.RevGrpc.Rendezvous.serve
    rog.Address.parse_address rog.Text.rsplit_once rog.Text.parse_u16 rog.Prelude.bytes_eq
    rog.Streams.RevGrpcServer.new
tunnel_is = refl

run_returns_example :
    Over udp_service uuid
      (pool udp (run uuid pw_map (run uuid pw_map new schedule) (map (task udp) (turns 0))))
      0
run_returns_example = run_returns uuid uuid_new pw_map udp schedule 0 tunnel tunnel_is

abbrev client : Client
client = record { stream = λ sent. some []; udp = λ sent. none }

abbrev accepting : Accepting
accepting = record {
  tx = record { sent = []; closed = false };
  udp_tx = record { sent = []; closed = false };
}

-- The state once the client has its session.
abbrev online : Managers
online = (run uuid pw_map new (Action.client_connects (message hello ∷ []) ∷ [])).managers

abbrev session : Session
session = record { first_msg = hello; sent = []; closed = false; ended = false }

listens_to : parse_address (codes "a:80") ≡ ok (codes "a", 80)
unfolding parse_address rog.Text.rsplit_once rog.Text.parse_u16
listens_to = refl

online_is : (online.managers (codes "home") ≡ some 0) × (online.sessions 0 ≡ some session)
unfolding run rog.Connector.RevGrpc.step new connect rog.Connector.RevGrpc.udp_tunnel
    rog.Connector.RevGrpc.task_step rog.Connector.RevGrpc.Clients.manager
    rog.Connector.RevGrpc.Clients.none_connected rog.Prelude.bytes_eq
online_is = (refl, refl)

allowed_is : authorized cfg.pw (codes "pw") ≡ true
unfolding rog.Prelude.bytes_eq
allowed_is = refl

named_is : uuid (nothing_pending stream_service).next ≡ 1 ∷ []
unfolding nothing_pending
named_is = refl

rev_session_example :
    (p' : Pool stream_service) × (connect uuid cfg
        (codes "a:80")
        online
        (nothing_pending stream_service)
      ≡ ok p')
    × (let (m', asked) = send_request stream_service uuid 0 online p' in
        (m'.sessions 0
          ≡ some (record session { sent = stream_request (uuid 0) (codes "a", 80) ∷ [] }))
        × ((q' : Accepting) × (listen client
                (codes "pw")
                (opened (message (stream_request (uuid 0) (codes "a", 80)) ∷ []) ∷ [])
                accepting
              ≡ ok q')
            × Accepted uuid cfg
                (codes "a:80")
                (codes "a")
                80
                0
                online
                (nothing_pending stream_service)
                session
                listens_to
                online_is.0
                online_is.1
                refl
                (codes "pw")
                []
                allowed_is
                1
                []
                named_is
                client
                accepting
                []
                refl
                refl
                q')
        × (let answered = receive stream_service uuid 0 (
              serve stream_service uuid 0
                (request stream_service uuid (message first ∷ []) asked)) in
            (c : Call stream_service) × (answered.calls 0 ≡ some c) × (c.phase ≡ done (ok conn))))
unfolding nothing_pending rog.Streams.RevGrpcServer.new rog.Prelude.bytes_eq
rev_session_example =
    rev_session uuid cfg (codes "a:80") (codes "a") 80 0 online (nothing_pending stream_service)
      session listens_to online_is.0 online_is.1 refl (codes "pw") [] allowed_is 1 [] named_is
      client accepting [] refl refl
