-- ===== src/Connector/RevGrpc/Rendezvous/Sends.antt =====
-- src/connector/rev_grpc.rs: what a call sends to a manager leaves the map of managers as it is.
use rog.Prelude.{ℕ, ◌≡◌, refl, Option, none, some, Option-cases, inl, inr}
use rog.Prelude.Word.{Bytes}
use rog.Prelude.Maps.{Map}
use rog.Connector.RevGrpc.Clients.{Managers, send}
use rog.Connector.RevGrpc.Clients.Registry.{Registry, send-Registry}
use rog.Connector.RevGrpc.Rendezvous.{
  Service, Call, Phase, Pool, done, sending, waiting, cleaning, send_request, send_from, sent_or,
  on_call,
}

module _ (v : Service) (uuid : ℕ → Bytes) (pw_map : Map (Option Bytes)) where
  sent_or-Registry :
      (i : ℕ) (c : Call v) (r : Option Managers) (m : Managers) (p : Pool v)
      → Registry pw_map m
      → send c.manager_tx (v.request (uuid i) c.info) m ≡ r
      → Registry pw_map (sent_or v uuid i c r m p).0
  sent_or-Registry i c none m p r e = r
  sent_or-Registry i c (some m') m p r e =
      send-Registry pw_map m r c.manager_tx (v.request (uuid i) c.info) m' e

  send_from-Registry :
      (i : ℕ) (c : Call v) (ph : Phase v) (m : Managers) (p : Pool v)
      → Registry pw_map m
      → Registry pw_map (send_from v uuid i c ph m p).0
  unfolding send_from
  send_from-Registry i c sending m p r =
      sent_or-Registry i c (send c.manager_tx (v.request (uuid i) c.info) m) m p r refl
  send_from-Registry i c waiting m p r = r
  send_from-Registry i c (cleaning k t) m p r = r
  send_from-Registry i c (done x) m p r = r

  pub send_request-Registry :
      (i : ℕ) (m : Managers) (p : Pool v)
      → Registry pw_map m
      → Registry pw_map (send_request v uuid i m p).0
  unfolding send_request on_call
  send_request-Registry i m p r = elim (Option-cases (p.calls i)) [
    | inl e ↦ rw e r
    | inr (c, e) ↦ rw e (send_from-Registry i c c.phase m p r)
  ]
