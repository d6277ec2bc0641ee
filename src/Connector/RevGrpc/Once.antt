-- ===== src/Connector/RevGrpc/Once.antt =====
-- src/connector/rev_grpc.rs: what holds of the calls and the requests after any schedule.
use rog.Prelude.{ℕ, ◌≡◌, ◌↔◌, Option, some, List, [], ◌∷◌, ok, false, true}
use mathlib.Core.List.{map}
use rog.Prelude.Word.{Bytes}
use rog.Prelude.Maps.{Map}
use rog.Connector.RevGrpc.Clients.{Session, authorized, expected}
use rog.Connector.RevGrpc.Rendezvous.{Service, Pending, Call, Pool, done}
use rog.Connector.RevGrpc.Rendezvous.Inv.{Inv}
use rog.Connector.RevGrpc.Rendezvous.Ends.{send_request-finish-Ended}
use rog.Connector.RevGrpc.Rendezvous.Once.{
  AnsweredBy, Claimed, Waiting, Over, Inv-AnsweredBy, Claimed-once, Inv-Waiting, Ended-Over,
}
use rog.Connector.RevGrpc.{
  System, Action, Task, new, stream_service, udp_service, task_step, step, run,
}
use rog.Connector.RevGrpc.Runs.{Sound, reach, run-Sound}

-- Four steps of a call's own.
abbrev pub turns : ℕ → List Task
turns i = Task.sends i ∷ Task.receives i ∷ Task.times_out i ∷ Task.cleans i ∷ []

-- The two kinds of calls.
pub data Kind : Type 0 where
  stream udp : Kind

abbrev pub service : Kind → Service
service stream = stream_service
service udp = udp_service

abbrev pub pool : (k : Kind) → System → Pool (service k)
pool stream s = s.streams
pool udp s = s.udps

abbrev pub task : Kind → Task → Action
task stream t = Action.stream_task t
task udp t = Action.udp_task t

module _ (uuid : ℕ → Bytes) (uuid_new : (i j : ℕ) → uuid i ≡ uuid j → i ≡ j)
    (pw_map : Map (Option Bytes)) where
  abbrev ran : List Action → System
  ran schedule = run uuid pw_map new schedule

  pool-Inv :
      (k : Kind) (s : System) → Sound uuid uuid_new pw_map s → Inv (service k) uuid (pool k s)
  pool-Inv stream s r = r.streams
  pool-Inv udp s r = r.udps

  reach-Inv : (k : Kind) (schedule : List Action) → Inv (service k) uuid (pool k (ran schedule))
  reach-Inv k schedule = pool-Inv k (ran schedule) (reach uuid uuid_new pw_map schedule)

  -- The ids are distinct. After any schedule, a `connect` that returned a stream, or a `udp_tunnel` that
  -- returned a reader and a writer, was answered by a request to the service that named the id of the
  -- call and the password of the connector, if it has one. What it returned reads the messages behind
  -- the first one of that request, and a stream has the destination that the call recorded.
  pub run_answered :
      (k : Kind) (schedule : List Action) (i : ℕ) (c : Call (service k)) (conn : (service k).Conn)
      → (pool k (run uuid pw_map new schedule)).calls i ≡ some c
      → c.phase ≡ done (ok conn)
      → (h : ℕ) × AnsweredBy (service k) uuid (pool k (run uuid pw_map new schedule)) i c conn h
  run_answered k schedule i c conn q f =
      Inv-AnsweredBy (service k) uuid _ i c conn (reach-Inv k schedule) q f

  -- The ids are distinct. After any schedule, no two requests of a kind for which the service found an
  -- entry name the same id: an id is good for one request, be it accepted or refused.
  pub run_once_only :
      (k : Kind) (schedule : List Action) (h h' : ℕ) (first_msg first_msg' : (service k).Req)
      → Claimed (service k) uuid (pool k (run uuid pw_map new schedule)) h first_msg
      → Claimed (service k) uuid (pool k (run uuid pw_map new schedule)) h' first_msg'
      → (service k).conn_id first_msg ≡ (service k).conn_id first_msg'
      → h ≡ h'
  run_once_only k schedule h h' f g =
      Claimed-once (service k) uuid uuid_new _ h h' f g (reach-Inv k schedule)

  -- The ids are distinct. After any schedule, an entry in either map stands under the id of a call that
  -- has not returned, and says what that call asked for: no call leaves an entry behind, whether it was
  -- answered, refused, cut off or timed out.
  pub run_listed :
      (k : Kind) (schedule : List Action) (id : Bytes) (e : Pending (service k))
      → (pool k (run uuid pw_map new schedule)).pending id ≡ some e
      → Waiting (service k) uuid (pool k (run uuid pw_map new schedule)) id e
  run_listed k schedule id e q = Inv-Waiting (service k) uuid _ id e (reach-Inv k schedule) q

  -- The ids are distinct. After any schedule, a tag maps to a session exactly if the session is that of
  -- a client with this tag, has not ended, and began with the password that the tag wants, if it wants
  -- one. So a tag never has two sessions.
  pub run_managers :
      (schedule : List Action) (n : ℕ) (tag : Bytes)
      → let m = (run uuid pw_map new schedule).managers in
        (m.managers tag ≡ some n) ↔ (
          (s : Session) × (m.sessions n ≡ some s)
          × (s.first_msg.tag ≡ tag)
          × (s.ended ≡ false)
          × (authorized (expected (pw_map tag)) s.first_msg.auth ≡ true))
  run_managers schedule n tag =
      let r = (reach uuid uuid_new pw_map schedule).registry in
      (
        λ q.
            let (s, at, tag_is, e) = r.live tag n q in
            (s, at, tag_is, e, rw⁻¹ tag_is (r.allowed n s at)),
        λ (s, at, tag_is, e, _). rw⁻¹ tag_is (r.listed n s at e),
      )

  -- The ids are distinct. After any schedule, a call that has begun returns after at most four steps of
  -- its own, taken one after the other: the send to the manager, which waits while the channel is full,
  -- the look at its answer, the end of its ten seconds, and the removal of its entry. Then no entry under
  -- its id is left.
  pub run_returns :
      (k : Kind) (schedule : List Action) (i : ℕ) (c : Call (service k))
      → (pool k (run uuid pw_map new schedule)).calls i ≡ some c
      → Over
          (service k)
          uuid
          (pool k (run uuid pw_map (run uuid pw_map new schedule) (map (task k) (turns i))))
          i
  unfolding run step task_step
  run_returns stream schedule i c q =
      Ended-Over stream_service uuid uuid_new _ i
        (pool-Inv stream _ (
          run-Sound uuid uuid_new pw_map (ran schedule) (map (task stream) (turns i))
            (reach uuid uuid_new pw_map schedule)))
        (send_request-finish-Ended stream_service uuid i c (ran schedule).managers
          (ran schedule).streams q)
  run_returns udp schedule i c q =
      Ended-Over udp_service uuid uuid_new _ i
        (pool-Inv udp _ (
          run-Sound uuid uuid_new pw_map (ran schedule) (map (task udp) (turns i))
            (reach uuid uuid_new pw_map schedule)))
        (send_request-finish-Ended udp_service uuid i c (ran schedule).managers (ran schedule).udps
          q)
