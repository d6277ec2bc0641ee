-- ===== src/Connector/RevGrpc/Rendezvous/Inv.antt =====
-- src/connector/rev_grpc.rs: what relates the calls of the connector, the entries of the map and the
-- requests to the service.
use rog.Prelude.{ℕ, ◌≤◌, ◌≡◌, ◌∙◌, true, Option, none, some, ◌∷◌, ok}
use rog.Prelude.Word.{Bytes}
use rog.Prelude.Channel.{message, Streaming}
use rog.Connector.RevGrpc.Clients.{Reply, authorized}
use rog.Connector.RevGrpc.Rendezvous.{
  Service, Pending, Phase, Call, Stage, Handler, Pool, done, rejected, claimed, served, delivered,
}

module _ (v : Service) where
  abbrev pub owner : Stage v → Option (Pending v)
  owner (rejected r) = none
  owner (claimed e) = some e
  owner (served e r) = some e

  -- The call has not returned.
  abbrev pub IsOpen : Phase v → Type 0
  IsOpen (done r) = ⊥
  IsOpen _ = Unit {0}

  -- A request that gave `conn` to call `i` named the id of the call and, if there is one, its
  -- password, and `conn` is made of it and of what the call asked for.
  pub record Served (uuid : ℕ → Bytes) (p : Pool v) (i : ℕ) (c : Call v) (conn : v.Conn) (h : ℕ)
      : Type 0 where
    pub handler : Handler v
    pub entry : Pending v
    pub reply : Reply
    pub first_msg : v.Req
    pub in_stream : Streaming v.Req
    pub there : p.handlers h ≡ some handler
    pub stage : handler.stage ≡ served entry reply
    pub target : entry.tx ≡ i
    pub events : handler.events ≡ message first_msg ∷ in_stream
    pub conn_id : v.conn_id first_msg ≡ some (uuid i)
    pub password : authorized c.pw (v.auth first_msg) ≡ true
    pub made : conn ≡ v.open_conn first_msg in_stream c.info

  module _ (uuid : ℕ → Bytes) (p p' : Pool v) (i : ℕ) (c c' : Call v) (conn : v.Conn) (h : ℕ) where
    pub Served-eq :
        p'.handlers h ≡ p.handlers h
        → c'.info ≡ c.info
        → c'.pw ≡ c.pw
        → Served uuid p i c conn h
        → Served uuid p' i c' conn h
    Served-eq same info pw w = record {
      handler = w.handler;
      entry = w.entry;
      reply = w.reply;
      first_msg = w.first_msg;
      in_stream = w.in_stream;
      there = same ∙ w.there;
      stage = w.stage;
      target = w.target;
      events = w.events;
      conn_id = w.conn_id;
      password = rw pw w.password;
      made = rw info w.made;
    }

  -- A request that holds the entry of a call.
  pub record Owns (uuid : ℕ → Bytes) (p : Pool v) (hd : Handler v) (e : Pending v) : Type 0 where
    pub call : Call v
    pub there : p.calls e.tx ≡ some call
    pub info : call.info ≡ e.info
    pub pw : call.pw ≡ e.pw
    pub removed : p.pending (uuid e.tx) ≡ none
    pub first_msg : v.Req
    pub in_stream : Streaming v.Req
    pub events : hd.events ≡ message first_msg ∷ in_stream
    pub conn_id : v.conn_id first_msg ≡ some (uuid e.tx)

  pub record Entry (uuid : ℕ → Bytes) (p : Pool v) (k : Bytes) (e : Pending v) : Type 0 where
    pub call : Call v
    pub there : p.calls e.tx ≡ some call
    pub key : k ≡ uuid e.tx
    pub info : call.info ≡ e.info
    pub pw : call.pw ≡ e.pw
    pub open' : IsOpen call.phase

  pub record Inv (uuid : ℕ → Bytes) (p : Pool v) : Type 0 where
    pub calls_below : (i : ℕ) → p.next ≤ i → p.calls i ≡ none
    pub handlers_below : (h : ℕ) → p.arrivals ≤ h → p.handlers h ≡ none
    pub entries : (k : Bytes) (e : Pending v) → p.pending k ≡ some e → Entry uuid p k e
    pub owners :
        (h : ℕ) (hd : Handler v) (e : Pending v)
        → p.handlers h ≡ some hd
        → owner hd.stage ≡ some e
        → Owns uuid p hd e
    pub once :
        (h h' : ℕ) (hd hd' : Handler v) (e e' : Pending v)
        → p.handlers h ≡ some hd
        → owner hd.stage ≡ some e
        → p.handlers h' ≡ some hd'
        → owner hd'.stage ≡ some e'
        → e.tx ≡ e'.tx
        → h ≡ h'
    pub slots :
        (i : ℕ) (c : Call v) (conn : v.Conn) (h : ℕ)
        → p.calls i ≡ some c
        → c.slot ≡ delivered conn h
        → Served uuid p i c conn h
    pub results :
        (i : ℕ) (c : Call v) (conn : v.Conn)
        → p.calls i ≡ some c
        → c.phase ≡ done (ok conn)
        → (h : ℕ) × (c.slot ≡ delivered conn h)
