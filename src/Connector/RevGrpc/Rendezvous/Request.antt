-- ===== src/Connector/RevGrpc/Rendezvous/Request.antt =====
-- src/connector/rev_grpc.rs: a request to the service, and the entry that it takes out of the map.
use rog.Prelude.{
  ℕ, ◌≡◌, ◌≢◌, refl, sym, ◌==◌, bytes_eq_refl, Bool-cases, inl, inr, none, some, Option, arith,
  true, false, [], ◌∷◌,
}
use mathlib.Core.Path.{subst}
use rog.Prelude.Word.{Bytes}
use rog.Prelude.Channel.{message, status, Streaming}
use rog.Prelude.Maps.{Map, remove}
use rog.Proto.{unwrap_or_default}
use rog.Connector.RevGrpc.Clients.{Reply, refused, not_found, invalid_argument, transport}
use rog.Connector.RevGrpc.Rendezvous.{
  Service, Pending, Call, Stage, Handler, Pool, delivered, request, with_id, claim, arrive,
  rejected, claimed,
}
use rog.Connector.RevGrpc.Rendezvous.Inv.{owner, Served, Owns, Inv, Served-eq}

module _ (v : Service) (uuid : ℕ → Bytes) (p : Pool v) (inv : Inv v uuid p) where
  -- The request `h` is new.
  older : (h : ℕ) (hd : Handler v) → p.handlers h ≡ some hd → h ≢ p.arrivals
  older h hd q e = ground (arith, inv.handlers_below h)

  module _ (events : Streaming v.Req) (stage : Stage v) (pending' : Map (Pending v))
      (fewer : (k : Bytes) (e : Pending v) → pending' k ≡ some e → p.pending k ≡ some e)
      (none_new : (k : Bytes) → p.pending k ≡ none → pending' k ≡ none)
      (was_there : (e : Pending v) → owner v stage ≡ some e → p.pending (uuid e.tx) ≢ none) where
    abbrev newcomer : Handler v
    newcomer = record { events = events; stage = stage }

    abbrev after : Pool v
    after = arrive v uuid events stage pending' p

    module _ (owns : (e : Pending v) → owner v stage ≡ some e → Owns v uuid after newcomer e) where
      arrive-Owns :
          (h : ℕ) (hd : Handler v) (e : Pending v)
          → after.handlers h ≡ some hd
          → owner v hd.stage ≡ some e
          → Owns v uuid after hd e
      arrive-Owns h hd e q o = elim (Bool-cases (h == p.arrivals)) [
        | inl same ↦
            let hd_is : newcomer ≡ hd = ground (arith, same, q) in
            subst (λ d. Owns v uuid after d e) hd_is (owns e (ground (arith, hd_is, o)))
        | inr other ↦
            let w = inv.owners h hd e (rw other at q) o in
            record {
              call = w.call;
              there = w.there;
              info = w.info;
              pw = w.pw;
              removed = none_new (uuid e.tx) w.removed;
              first_msg = w.first_msg;
              in_stream = w.in_stream;
              events = w.events;
              conn_id = w.conn_id;
            }
      ]

      -- The newcomer shares its call with no request before it.
      alone :
          (h h' : ℕ) (hd hd' : Handler v) (e e' : Pending v)
          → (h == p.arrivals) ≡ true
          → (h' == p.arrivals) ≡ false
          → after.handlers h ≡ some hd
          → owner v hd.stage ≡ some e
          → after.handlers h' ≡ some hd'
          → owner v hd'.stage ≡ some e'
          → e.tx ≢ e'.tx
      alone h h' hd hd' e e' same other q o q' o' t =
          let w = inv.owners h' hd' e' (rw other at q') o' in
          let hd_is : newcomer ≡ hd = ground (arith, same, q) in
          was_there e (ground (arith, hd_is, o)) (rw t w.removed)

      arrive-once :
          (h h' : ℕ) (hd hd' : Handler v) (e e' : Pending v)
          → after.handlers h ≡ some hd
          → owner v hd.stage ≡ some e
          → after.handlers h' ≡ some hd'
          → owner v hd'.stage ≡ some e'
          → e.tx ≡ e'.tx
          → h ≡ h'
      arrive-once h h' hd hd' e e' q o q' o' t = elim (Bool-cases (h == p.arrivals)) [
        | inl same ↦ elim (Bool-cases (h' == p.arrivals)) [
          | inl same' ↦ ground arith
          | inr other' ↦ absurd (alone h h' hd hd' e e' same other' q o q' o' t)
        ]
        | inr other ↦ elim (Bool-cases (h' == p.arrivals)) [
          | inl same' ↦ absurd (alone h' h hd' hd e' e same' other q' o' q o (sym t))
          | inr other' ↦ inv.once h h' hd hd' e e' (rw other at q) o (rw other' at q') o' t
        ]
      ]

      arrive-Served :
          (j : ℕ) (d : Call v) (conn : v.Conn) (h : ℕ)
          → p.calls j ≡ some d
          → d.slot ≡ delivered conn h
          → Served v uuid after j d conn h
      arrive-Served j d conn h q s =
          let w = inv.slots j d conn h q s in
          Served-eq v uuid p after j d d conn h (ground (arith, older h w.handler w.there)) refl
            refl w

      pub arrive-Inv : Inv v uuid after
      arrive-Inv = record {
        calls_below = inv.calls_below;
        handlers_below = λ h le. ground (arith, inv.handlers_below h);
        entries = λ k e q.
            let w = inv.entries k e (fewer k e q) in
            record {
              call = w.call;
              there = w.there;
              key = w.key;
              info = w.info;
              pw = w.pw;
              open' = w.open';
            };
        owners = arrive-Owns;
        once = arrive-once;
        slots = arrive-Served;
        results = inv.results;
      }

  rejected-Inv :
      (events : Streaming v.Req) (reply : Reply)
      → Inv v uuid (arrive v uuid events (rejected reply) p.pending p)
  rejected-Inv events reply =
      arrive-Inv events (rejected reply) p.pending (λ k e q. q) (λ k q. q) (λ e q. absurd (cc))
        (λ e q. absurd (cc))

  claim-Inv :
      (first_msg : v.Req) (in_stream : Streaming v.Req) (id : Bytes) (r : Option (Pending v))
      → v.conn_id first_msg ≡ some id
      → p.pending id ≡ r
      → Inv v uuid (claim v uuid (message first_msg ∷ in_stream) id r p)
  claim-Inv first_msg in_stream id none named q =
      rejected-Inv (message first_msg ∷ in_stream) (refused not_found v.unknown_conn_id)
  claim-Inv first_msg in_stream id (some e) named q =
      let w = inv.entries id e q in
      arrive-Inv (message first_msg ∷ in_stream) (claimed e) (remove id p.pending)
        (λ k d r. ground arith) (λ k r. ground arith)
        (λ d o r. let d_is : e ≡ d = cc in cc (d_is, w.key, q, r))
        (λ d o.
          let d_is : e ≡ d = cc in
          subst (Owns v uuid _ _) d_is (record {
            call = w.call;
            there = w.there;
            info = w.info;
            pw = w.pw;
            removed = rw (← w.key, bytes_eq_refl id) refl;
            first_msg = first_msg;
            in_stream = in_stream;
            events = refl;
            conn_id = rw (← w.key) named;
          }))

  with_id-Inv :
      (first_msg : v.Req) (in_stream : Streaming v.Req) (given : Option Bytes)
      → v.conn_id first_msg ≡ given
      → Inv v uuid (with_id v uuid (message first_msg ∷ in_stream) (unwrap_or_default given) p)
  unfolding with_id
  with_id-Inv first_msg in_stream none e =
      rejected-Inv (message first_msg ∷ in_stream) (refused invalid_argument v.missing_conn_id)
  with_id-Inv first_msg in_stream (some []) e =
      rejected-Inv (message first_msg ∷ in_stream) (refused invalid_argument v.missing_conn_id)
  with_id-Inv first_msg in_stream (some (b ∷ bs)) e =
      claim-Inv first_msg in_stream (b ∷ bs) (p.pending (b ∷ bs)) e refl

  pub request-Inv : (events : Streaming v.Req) → Inv v uuid (request v uuid events p)
  unfolding request
  request-Inv [] = rejected-Inv [] (refused invalid_argument v.missing_first)
  request-Inv (status e ∷ in_stream) = rejected-Inv (status e ∷ in_stream) (refused transport e)
  request-Inv (message first_msg ∷ in_stream) =
      with_id-Inv first_msg in_stream (v.conn_id first_msg) refl
