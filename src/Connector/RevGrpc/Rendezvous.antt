-- ===== src/Connector/RevGrpc/Rendezvous.antt =====
-- src/connector/rev_grpc.rs: how a call of the connector and a request to the service find each
-- other. `connect` and `stream`, and `udp_tunnel` and `udp`, do the same on two kinds of streams,
-- which a record describes; both are in RevGrpc.antt. Every access to what tasks share is a step of its
-- own. `oneshot::channel()` is the slot of the call that made it, `uuid n` the id that the `n`-th call
-- draws.
pub mod Inv
pub mod Recall
pub mod Calls
pub mod Begin
pub mod Request
pub mod Serve
pub mod Ends
pub mod Sends
pub mod Once
use rog.Prelude.{
  ℕ, suc, ◌==◌, not, if◌then◌else◌, Bool, true, false, bytes_eq, Option, none, some, List, [], ◌∷◌,
  String, Result, ok, err, ErrorKind, not_connected, connection_aborted, timed_out,
}
use rog.Prelude.Word.{Bytes}
use rog.Prelude.Channel.{message, status, Streaming}
use rog.Prelude.Maps.{Map, insert, remove, Table, set}
use rog.Proto.{ManagerRes, unwrap_or_default}
use rog.Connector.RevGrpc.Clients.{
  Code, Reply, granted, refused, invalid_argument, unauthenticated, not_found, transport,
  authorized, Managers, send,
}

-- `config::Connector`, as far as it is read.
pub record Config : Type 0 where
  pub name : Bytes
  pub pw : Option Bytes

-- What the two kinds do in their own way.
pub record Service : Type 1 where
  -- What the call asks for, and what the service reads and gives to the call.
  pub Info : Type 0
  pub Req : Type 0
  pub Conn : Type 0
  pub auth : Req → Bytes
  pub conn_id : Req → Option Bytes
  -- The message to the manager's client.
  pub request : Bytes → Info → ManagerRes
  -- What the service makes of the first message, the messages behind it and what was asked for.
  pub open_conn : Req → Streaming Req → Info → Conn
  -- The answer where the call that asked is gone.
  pub undelivered : Reply
  pub send_failed : String
  pub channel_closed : String
  pub no_answer : String
  pub missing_first : String
  pub missing_conn_id : String
  pub invalid_auth : String
  pub unknown_conn_id : String

module _ (v : Service) where
  -- `PendingConn` and `PendingUdpConn`; `tx` is the call that waits at the other end.
  pub record Pending : Type 0 where
    pub tx : ℕ
    pub info : v.Info
    pub pw : Option Bytes

  -- What a oneshot channel holds. The second field tells which request sent it.
  pub data Slot : Type 0 where
    empty dropped : Slot
    delivered : v.Conn → ℕ → Slot

  -- Where a call stands; `cleaning` is about to remove its entry and to return the error.
  pub data Phase : Type 0 where
    sending waiting : Phase
    cleaning : ErrorKind → String → Phase
    done : Result v.Conn → Phase

  pub record Call : Type 0 where
    pub manager_tx : ℕ
    pub info : v.Info
    pub pw : Option Bytes
    pub phase : Phase
    pub slot : Slot
    -- The receiving end of the channel is gone.
    pub deaf : Bool

  -- Where a request to the service stands. It holds what it took out of the map.
  pub data Stage : Type 0 where
    rejected : Reply → Stage
    claimed : Pending → Stage
    served : Pending → Reply → Stage

  pub record Handler : Type 0 where
    pub events : Streaming v.Req
    pub stage : Stage

  pub record Pool : Type 0 where
    pub pending : Map Pending
    pub calls : Table Call
    pub next : ℕ
    pub handlers : Table Handler
    pub arrivals : ℕ

  unfoldable pub nothing_pending : Pool
  nothing_pending = record {
    pending = λ k. none;
    calls = λ i. none;
    next = 0;
    handlers = λ h. none;
    arrivals = 0;
  }

  module _ (uuid : ℕ → Bytes) where
    abbrev pub begin_with : Config → v.Info → Option ℕ → Pool → Result Pool
    begin_with cfg info none p = err not_connected "reverse client offline"
    begin_with cfg info (some n) p = ok (record p {
      pending = insert (uuid p.next) (record { tx = p.next; info = info; pw = cfg.pw }) p.pending;
      calls =
          set p.next
            (record {
              manager_tx = n;
              info = info;
              pw = cfg.pw;
              phase = sending;
              slot = empty;
              deaf = false;
            })
            p.calls;
      next = suc p.next;
    })

    -- The sender of the manager is looked up, and the entry is made. These are one step: they concern two
    -- different maps, and a manager that leaves in between only closes the sender, which was cloned.
    unfoldable pub begin : Config → v.Info → Managers → Pool → Result Pool
    begin cfg info m p = begin_with cfg info (m.managers cfg.name) p

    abbrev pub move : ℕ → Call → Pool → Pool
    move i c p = record p { calls = set i c p.calls }

    -- `manager_tx.send(Ok(req)).await`.
    abbrev sent_or : ℕ → Call → Option Managers → Managers → Pool → Managers × Pool
    sent_or i c none m p =
        (m, move i (record c { phase = cleaning connection_aborted v.send_failed }) p)
    sent_or i c (some m') m p = (m', move i (record c { phase = waiting }) p)

    send_from : ℕ → Call → Phase → Managers → Pool → Managers × Pool
    send_from i c sending m p = sent_or i c (send c.manager_tx (v.request (uuid i) c.info) m) m p
    send_from i c _ m p = (m, p)

    on_call : {A : Type 0} → A → (Call → A) → Option Call → A
    on_call unchanged f none = unchanged
    on_call unchanged f (some c) = f c

    unfoldable pub send_request : ℕ → Managers → Pool → Managers × Pool
    unfolding send_from on_call
    send_request i m p = on_call (m, p) (λ c. send_from i c c.phase m p) (p.calls i)

    -- The answer comes in, or the other end is dropped.
    abbrev taken : ℕ → Call → Slot → Pool → Pool
    taken i c empty p = p
    taken i c dropped p =
        move i (record c { phase = cleaning connection_aborted v.channel_closed; deaf = true }) p
    taken i c (delivered conn h) p = move i (record c { phase = done (ok conn); deaf = true }) p

    receive_from : ℕ → Call → Phase → Pool → Pool
    receive_from i c waiting p = taken i c c.slot p
    receive_from i c _ p = p

    unfoldable pub receive : ℕ → Pool → Pool
    unfolding receive_from on_call
    receive i p = on_call p (λ c. receive_from i c c.phase p) (p.calls i)

    -- Ten seconds are over, and nothing has come in. The receiver is dropped in the same step: the short time
    -- in which an answer could still be sent to it in vain is left out.
    abbrev late : ℕ → Call → Slot → Pool → Pool
    late i c empty p = move i (record c { phase = cleaning timed_out v.no_answer; deaf = true }) p
    late i c _ p = p

    time_out_from : ℕ → Call → Phase → Pool → Pool
    time_out_from i c waiting p = late i c c.slot p
    time_out_from i c _ p = p

    unfoldable pub time_out : ℕ → Pool → Pool
    unfolding time_out_from on_call
    time_out i p = on_call p (λ c. time_out_from i c c.phase p) (p.calls i)

    -- The entry is removed, and the call returns its error.
    clean_from : ℕ → Call → Phase → Pool → Pool
    clean_from i c (cleaning kind text) p = record p {
      pending = remove (uuid i) p.pending;
      calls = set i (record c { phase = done (err kind text); deaf = true }) p.calls;
    }
    clean_from i c _ p = p

    unfoldable pub clean : ℕ → Pool → Pool
    unfolding clean_from on_call
    clean i p = on_call p (λ c. clean_from i c c.phase p) (p.calls i)

    abbrev arrive : Streaming v.Req → Stage → Map Pending → Pool → Pool
    arrive events stage pending p = record p {
      pending = pending;
      handlers = set p.arrivals (record { events = events; stage = stage }) p.handlers;
      arrivals = suc p.arrivals;
    }

    abbrev claim : Streaming v.Req → Bytes → Option Pending → Pool → Pool
    claim events id none p =
        arrive events (rejected (refused not_found v.unknown_conn_id)) p.pending p
    claim events id (some pending) p = arrive events (claimed pending) (remove id p.pending) p

    with_id : Streaming v.Req → Bytes → Pool → Pool
    with_id events [] p =
        arrive events (rejected (refused invalid_argument v.missing_conn_id)) p.pending p
    with_id events (b ∷ bs) p = claim events (b ∷ bs) (p.pending (b ∷ bs)) p

    -- A request to the service, up to where it takes the entry out of the map.
    unfoldable pub request : Streaming v.Req → Pool → Pool
    unfolding with_id
    request [] p = arrive [] (rejected (refused invalid_argument v.missing_first)) p.pending p
    request (status e ∷ in_stream) p =
        arrive (status e ∷ in_stream) (rejected (refused transport e)) p.pending p
    request (message first_msg ∷ in_stream) p =
        with_id (message first_msg ∷ in_stream) (unwrap_or_default (v.conn_id first_msg)) p

    abbrev answer : ℕ → Handler → Pending → Reply → ℕ → Option Call → Pool → Pool
    answer h hd pending reply i none p = p
    answer h hd pending reply i (some c) p = record p {
      calls = set i c p.calls;
      handlers = set h (record hd { stage = served pending reply }) p.handlers;
    }

    abbrev with_slot : Slot → Option Call → Option Call
    with_slot s none = none
    with_slot s (some c) = some (record c { slot = s })

    abbrev is_deaf : Option Call → Bool
    is_deaf none = true
    is_deaf (some c) = c.deaf

    -- The rest of the request: the password, and what is sent to the call. An entry that is dropped
    -- drops its sender.
    deliver : ℕ → Handler → Pending → v.Req → Streaming v.Req → Pool → Pool
    deliver h hd pending first_msg in_stream p =
        if not (authorized pending.pw (v.auth first_msg))
        then answer h hd pending (refused unauthenticated v.invalid_auth) pending.tx
            (with_slot dropped (p.calls pending.tx)) p
        else if is_deaf (p.calls pending.tx)
        then answer h hd pending v.undelivered pending.tx (p.calls pending.tx) p
        else answer h hd pending granted pending.tx
            (with_slot (delivered (v.open_conn first_msg in_stream pending.info) h)
              (p.calls pending.tx))
            p

    serve_from : ℕ → Handler → Stage → Streaming v.Req → Pool → Pool
    serve_from h hd (claimed pending) (message first_msg ∷ in_stream) p =
        deliver h hd pending first_msg in_stream p
    serve_from h hd _ events p = p

    on_handler : Pool → (Handler → Pool) → Option Handler → Pool
    on_handler unchanged f none = unchanged
    on_handler unchanged f (some hd) = f hd

    unfoldable pub serve : ℕ → Pool → Pool
    unfolding serve_from deliver on_handler
    serve h p = on_handler p (λ hd. serve_from h hd hd.stage hd.events p) (p.handlers h)
