-- ===== src/Connector/RevGrpc/Rendezvous/Once.antt =====
-- src/connector/rev_grpc.rs: what the invariant says of calls, requests and entries.
use rog.Prelude.{
  ℕ, ◌≡◌, ◌≢◌, refl, none, some, Bool, ◌∷◌, Option-cases, inl, inr, Result, ok, false, true,
}
use rog.Prelude.Word.{Bytes}
use rog.Prelude.Channel.{message, Streaming}
use rog.Connector.RevGrpc.Clients.{authorized}
use rog.Connector.RevGrpc.Rendezvous.{Service, Pending, Call, Phase, Handler, Pool, done}
use rog.Connector.RevGrpc.Rendezvous.Inv.{owner, IsOpen, Inv}
use rog.Connector.RevGrpc.Rendezvous.Ends.{Ended}

module _ (v : Service) (uuid : ℕ → Bytes) where
  -- Request `h` names the id of call `i` and the password of the call, if it has one, and the call
  -- returns what the service makes of the request and of what the call asked for.
  pub record AnsweredBy (p : Pool v) (i : ℕ) (c : Call v) (conn : v.Conn) (h : ℕ) : Type 0 where
    pub handler : Handler v
    pub first_msg : v.Req
    pub in_stream : Streaming v.Req
    pub there : p.handlers h ≡ some handler
    pub events : handler.events ≡ message first_msg ∷ in_stream
    pub conn_id : v.conn_id first_msg ≡ some (uuid i)
    pub password : authorized c.pw (v.auth first_msg) ≡ true
    pub made : conn ≡ v.open_conn first_msg in_stream c.info

  pub Inv-AnsweredBy :
      (p : Pool v) (i : ℕ) (c : Call v) (conn : v.Conn)
      → Inv v uuid p
      → p.calls i ≡ some c
      → c.phase ≡ done (ok conn)
      → (h : ℕ) × AnsweredBy p i c conn h
  Inv-AnsweredBy p i c conn inv q f =
      let (h, s) = inv.results i c conn q f in
      let w = inv.slots i c conn h q s in
      (
        h,
        record {
          handler = w.handler;
          first_msg = w.first_msg;
          in_stream = w.in_stream;
          there = w.there;
          events = w.events;
          conn_id = w.conn_id;
          password = w.password;
          made = w.made;
        },
      )

  -- A request with the first message `first_msg` that took an entry out of the map.
  pub record Claimed (p : Pool v) (h : ℕ) (first_msg : v.Req) : Type 0 where
    pub handler : Handler v
    pub entry : Pending v
    pub in_stream : Streaming v.Req
    pub there : p.handlers h ≡ some handler
    pub owns : owner v handler.stage ≡ some entry
    pub events : handler.events ≡ message first_msg ∷ in_stream

  module _ (uuid_new : (i j : ℕ) → uuid i ≡ uuid j → i ≡ j) where
    pub Claimed-once :
        (p : Pool v) (h h' : ℕ) (first_msg first_msg' : v.Req)
        → Inv v uuid p
        → Claimed p h first_msg
        → Claimed p h' first_msg'
        → v.conn_id first_msg ≡ v.conn_id first_msg'
        → h ≡ h'
    Claimed-once p h h' first_msg first_msg' inv a b same =
        let o = inv.owners h a.handler a.entry a.there a.owns in
        let o' = inv.owners h' b.handler b.entry b.there b.owns in
        let f : first_msg ≡ o.first_msg = cc (a.events, o.events) in
        let f' : first_msg' ≡ o'.first_msg = cc (b.events, o'.events) in
        let ids : uuid a.entry.tx ≡ uuid b.entry.tx = cc (f, f', o.conn_id, o'.conn_id, same) in
        inv.once h h' a.handler b.handler a.entry b.entry a.there a.owns b.there b.owns
          (uuid_new a.entry.tx b.entry.tx ids)

  abbrev pub has_returned : Phase v → Bool
  has_returned (done r) = true
  has_returned _ = false

  -- The entry `e` under `k` is that of a call that has not returned, and says what it asked for.
  pub record Waiting (p : Pool v) (k : Bytes) (e : Pending v) : Type 0 where
    pub call : Call v
    pub there : p.calls e.tx ≡ some call
    pub key : k ≡ uuid e.tx
    pub info : call.info ≡ e.info
    pub pw : call.pw ≡ e.pw
    pub returned : has_returned call.phase ≡ false

  open-not-done : (ph : Phase v) (r : Result v.Conn) → IsOpen v ph → ph ≢ done r
  open-not-done (done x) r o e = o
  open-not-done Phase.sending r o e = cc
  open-not-done Phase.waiting r o e = cc
  open-not-done (Phase.cleaning k t) r o e = cc

  open-not-returned : (ph : Phase v) → IsOpen v ph → has_returned ph ≡ false
  open-not-returned (done x) o = absurd o
  open-not-returned Phase.sending o = refl
  open-not-returned Phase.waiting o = refl
  open-not-returned (Phase.cleaning k t) o = refl

  pub Inv-Waiting :
      (p : Pool v) (k : Bytes) (e : Pending v) → Inv v uuid p → p.pending k ≡ some e → Waiting p k e
  Inv-Waiting p k e inv q =
      let w = inv.entries k e q in
      record {
        call = w.call;
        there = w.there;
        key = w.key;
        info = w.info;
        pw = w.pw;
        returned = open-not-returned w.call.phase w.open';
      }

  -- The call has returned, and no entry under its id is left.
  pub record Over (p : Pool v) (i : ℕ) : Type 0 where
    pub call : Call v
    pub result : Result v.Conn
    pub there : p.calls i ≡ some call
    pub returned : call.phase ≡ done result
    pub unlisted : p.pending (uuid i) ≡ none

  pub Ended-Over :
      (uuid_new : (i j : ℕ) → uuid i ≡ uuid j → i ≡ j) (p : Pool v) (i : ℕ)
      → Inv v uuid p
      → Ended v uuid i p
      → Over p i
  Ended-Over uuid_new p i inv (c, r, there, returned) = record {
    call = c;
    result = r;
    there = there;
    returned = returned;
    unlisted = elim (Option-cases (p.pending (uuid i))) [
      | inl q ↦ q
      | inr (e, q) ↦
          let w = inv.entries (uuid i) e q in
          let i_is : i ≡ e.tx = uuid_new i e.tx w.key in
          let c_is : c ≡ w.call = cc (i_is, there, w.there) in
          absurd (open-not-done w.call.phase r w.open' (cc (c_is, returned)))
    ];
  }
