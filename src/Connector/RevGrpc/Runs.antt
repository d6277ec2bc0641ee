-- ===== src/Connector/RevGrpc/Runs.antt =====
-- Any schedule of the tasks of src/connector/rev_grpc.rs.
use rog.Prelude.{ℕ, ◌≡◌, refl, Option, List, [], ◌∷◌, Result, ok, err, panics, >>=-eq-ok}
use rog.Prelude.Word.{Bytes}
use rog.Prelude.Maps.{Map}
use rog.Address.{parse_address}
use rog.Connector.RevGrpc.Clients.{Managers}
use rog.Connector.RevGrpc.Clients.Registry.{
  Registry, none_connected-Registry, manager-Registry, hang_up-Registry, disconnect-Registry,
}
use rog.Connector.RevGrpc.Rendezvous.{Service, Config, Pool}
use rog.Connector.RevGrpc.Rendezvous.Inv.{Inv}
use rog.Connector.RevGrpc.Rendezvous.Calls.{send_request-Inv, receive-Inv, time_out-Inv, clean-Inv}
use rog.Connector.RevGrpc.Rendezvous.Begin.{nothing_pending-Inv, begin-Inv}
use rog.Connector.RevGrpc.Rendezvous.Request.{request-Inv}
use rog.Connector.RevGrpc.Rendezvous.Serve.{serve-Inv}
use rog.Connector.RevGrpc.Rendezvous.Sends.{send_request-Registry}
use rog.Connector.RevGrpc.{
  System, Action, Task, new, stream_service, udp_service, connect, udp_tunnel, begun, task_step,
  step, run,
}

module _ (v : Service) (uuid : ℕ → Bytes) (pw_map : Map (Option Bytes)) where
  task_step-Inv :
      (t : Task) (m : Managers) (p : Pool v)
      → Registry pw_map m
      → Inv v uuid p
      → Registry pw_map (task_step uuid v t m p).0 × Inv v uuid (task_step uuid v t m p).1
  unfolding task_step
  task_step-Inv (Task.sends i) m p r inv =
      (send_request-Registry v uuid pw_map i m p r, send_request-Inv v uuid p inv i m)
  task_step-Inv (Task.receives i) m p r inv = (r, receive-Inv v uuid p inv i)
  task_step-Inv (Task.times_out i) m p r inv = (r, time_out-Inv v uuid p inv i)
  task_step-Inv (Task.cleans i) m p r inv = (r, clean-Inv v uuid p inv i)
  task_step-Inv (Task.serves h) m p r inv = (r, serve-Inv v uuid p inv h)

module _ (v : Service) (uuid : ℕ → Bytes) where
  begun-Inv :
      (p : Pool v) (r : Result (Pool v))
      → Inv v uuid p
      → ((p' : Pool v) → r ≡ ok p' → Inv v uuid p')
      → Inv v uuid (begun uuid v p r)
  begun-Inv p (ok p') inv f = f p' refl
  begun-Inv p (err k t) inv f = inv
  begun-Inv p panics inv f = inv

module _ (uuid : ℕ → Bytes) (uuid_new : (i j : ℕ) → uuid i ≡ uuid j → i ≡ j)
    (pw_map : Map (Option Bytes)) where
  pub record Sound (s : System) : Type 0 where
    pub registry : Registry pw_map s.managers
    pub streams : Inv stream_service uuid s.streams
    pub udps : Inv udp_service uuid s.udps

  connect-Inv :
      (cfg : Config) (addr : Bytes) (m : Managers) (p p' : Pool stream_service)
      → Inv stream_service uuid p
      → connect uuid cfg addr m p ≡ ok p'
      → Inv stream_service uuid p'
  unfolding connect
  connect-Inv cfg addr m p p' inv e =
      let ((host, port), _, f) = >>=-eq-ok (parse_address addr) _ e in
      begin-Inv stream_service uuid uuid_new cfg (host, port) m p p' inv f

  udp_tunnel-Inv :
      (cfg : Config) (m : Managers) (p p' : Pool udp_service)
      → Inv udp_service uuid p
      → udp_tunnel uuid cfg m p ≡ ok p'
      → Inv udp_service uuid p'
  unfolding udp_tunnel
  udp_tunnel-Inv cfg m p p' inv e = begin-Inv udp_service uuid uuid_new cfg tt m p p' inv e

  step-Sound : (a : Action) (s : System) → Sound s → Sound (step uuid pw_map a s)
  unfolding step
  step-Sound (Action.client_connects events) s i = record {
    registry = manager-Registry pw_map s.managers i.registry events;
    streams = i.streams;
    udps = i.udps;
  }
  step-Sound (Action.client_hangs_up n) s i = record {
    registry = hang_up-Registry pw_map s.managers i.registry n;
    streams = i.streams;
    udps = i.udps;
  }
  step-Sound (Action.client_disconnects n) s i = record {
    registry = disconnect-Registry pw_map s.managers i.registry n;
    streams = i.streams;
    udps = i.udps;
  }
  step-Sound (Action.connects cfg addr) s i = record {
    registry = i.registry;
    streams =
        begun-Inv stream_service uuid s.streams (connect uuid cfg addr s.managers s.streams)
          i.streams (λ p' e. connect-Inv cfg addr s.managers s.streams p' i.streams e);
    udps = i.udps;
  }
  step-Sound (Action.opens_udp_tunnel cfg) s i = record {
    registry = i.registry;
    streams = i.streams;
    udps =
        begun-Inv udp_service uuid s.udps (udp_tunnel uuid cfg s.managers s.udps) i.udps
          (λ p' e. udp_tunnel-Inv cfg s.managers s.udps p' i.udps e);
  }
  step-Sound (Action.stream_requested events) s i = record {
    registry = i.registry;
    streams = request-Inv stream_service uuid s.streams i.streams events;
    udps = i.udps;
  }
  step-Sound (Action.udp_requested events) s i = record {
    registry = i.registry;
    streams = i.streams;
    udps = request-Inv udp_service uuid s.udps i.udps events;
  }
  step-Sound (Action.stream_task t) s i =
      let (r, p) =
        task_step-Inv stream_service uuid pw_map t s.managers s.streams i.registry i.streams in
      record { registry = r; streams = p; udps = i.udps }
  step-Sound (Action.udp_task t) s i =
      let (r, p) = task_step-Inv udp_service uuid pw_map t s.managers s.udps i.registry i.udps in
      record { registry = r; streams = i.streams; udps = p }

  pub run-Sound :
      (s : System) (schedule : List Action) → Sound s → Sound (run uuid pw_map s schedule)
  unfolding run
  run-Sound s [] i = i
  run-Sound s (a ∷ rest) i = run-Sound (step uuid pw_map a s) rest (step-Sound a s i)

  pub reach : (schedule : List Action) → Sound (run uuid pw_map new schedule)
  unfolding new
  reach schedule = run-Sound new schedule (record {
    registry = none_connected-Registry pw_map;
    streams = nothing_pending-Inv stream_service uuid;
    udps = nothing_pending-Inv udp_service uuid;
  })
