-- ===== src/Connector/RevGrpc/Rendezvous/Recall.antt =====
-- src/connector/rev_grpc.rs: a step of a call keeps the invariant, where it leaves the call's
-- request, password and channel alone and makes no entry.
use rog.Prelude.{ℕ, ◌≡◌, refl, sym, ◌==◌, Bool-cases, inl, inr, none, some, ok, arith}
use mathlib.Core.Path.{subst}
use rog.Prelude.Word.{Bytes}
use rog.Prelude.Maps.{Map, set}
use rog.Connector.RevGrpc.Rendezvous.{Service, Pending, Call, Handler, Pool, done, delivered}
use rog.Connector.RevGrpc.Rendezvous.Inv.{owner, IsOpen, Served, Owns, Entry, Inv, Served-eq}

module _ (v : Service) (uuid : ℕ → Bytes) (p : Pool v) (inv : Inv v uuid p) (i : ℕ) (c c' : Call v)
    (pending' : Map (Pending v)) (here : p.calls i ≡ some c) (info : c'.info ≡ c.info)
    (pw : c'.pw ≡ c.pw) (slot : c'.slot ≡ c.slot)
    (fewer : (k : Bytes) (e : Pending v) → pending' k ≡ some e → p.pending k ≡ some e)
    (none_new : (k : Bytes) → p.pending k ≡ none → pending' k ≡ none)
    (gone : (k : Bytes) (e : Pending v) → pending' k ≡ some e → e.tx ≡ i → IsOpen v c'.phase)
    (result : (conn : v.Conn)
      → c'.phase ≡ done (ok conn)
      → (h : ℕ) × (c'.slot ≡ delivered conn h)) where
  abbrev after : Pool v
  after = record p { pending = pending'; calls = set i c' p.calls }

  recall-Entry : (k : Bytes) (e : Pending v) → pending' k ≡ some e → Entry v uuid after k e
  recall-Entry k e q =
      let w = inv.entries k e (fewer k e q) in
      elim (Bool-cases (e.tx == i)) [
        | inl same ↦ record {
          call = c';
          there = rw same refl;
          key = w.key;
          info = ground (arith, w.there, w.info);
          pw = ground (arith, w.there, w.pw);
          open' = gone k e q (ground arith);
        }
        | inr other ↦ record {
          call = w.call;
          there = rw other w.there;
          key = w.key;
          info = w.info;
          pw = w.pw;
          open' = w.open';
        }
      ]

  recall-Owns :
      (h : ℕ) (hd : Handler v) (e : Pending v)
      → p.handlers h ≡ some hd
      → owner v hd.stage ≡ some e
      → Owns v uuid after hd e
  recall-Owns h hd e q o =
      let w = inv.owners h hd e q o in
      elim (Bool-cases (e.tx == i)) [
        | inl same ↦ record {
          call = c';
          there = rw same refl;
          info = ground (arith, w.there, w.info);
          pw = ground (arith, w.there, w.pw);
          removed = none_new (uuid e.tx) w.removed;
          first_msg = w.first_msg;
          in_stream = w.in_stream;
          events = w.events;
          conn_id = w.conn_id;
        }
        | inr other ↦ record {
          call = w.call;
          there = rw other w.there;
          info = w.info;
          pw = w.pw;
          removed = none_new (uuid e.tx) w.removed;
          first_msg = w.first_msg;
          in_stream = w.in_stream;
          events = w.events;
          conn_id = w.conn_id;
        }
      ]

  recall-Served :
      (j : ℕ) (d : Call v) (conn : v.Conn) (h : ℕ)
      → after.calls j ≡ some d
      → d.slot ≡ delivered conn h
      → Served v uuid after j d conn h
  recall-Served j d conn h q s = elim (Bool-cases (j == i)) [
    | inl same ↦
        let j_is : j ≡ i = ground arith in
        let d_is : d ≡ c' = ground (arith, same, q) in
        let w = inv.slots i c conn h here (ground (arith, slot, d_is)) in
        subst (λ k. Served v uuid after k d conn h) (sym j_is)
          (Served-eq v uuid p after i c d conn h refl (ground (arith, info, d_is))
            (ground (arith, pw, d_is)) w)
    | inr other ↦
        Served-eq v uuid p after j d d conn h refl refl refl
          (inv.slots j d conn h (rw other at q) s)
  ]

  pub recall-Inv : Inv v uuid after
  recall-Inv = record {
    calls_below = λ j le. ground (arith, inv.calls_below j, inv.calls_below i);
    handlers_below = inv.handlers_below;
    entries = recall-Entry;
    owners = recall-Owns;
    once = inv.once;
    slots = recall-Served;
    results = λ j d conn q f. elim (Bool-cases (j == i)) [
      | inl same ↦
          let d_is : d ≡ c' = ground (arith, same, q) in rw d_is (result conn (rw d_is at f))
      | inr other ↦ inv.results j d conn (rw other at q) f
    ];
  }
