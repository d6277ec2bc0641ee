-- ===== src/Connector/RevGrpc/Rendezvous/Begin.antt =====
-- src/connector/rev_grpc.rs: the start of a call keeps the invariant, since its id is new.
use rog.Prelude.{
  ℕ, suc, ◌≡◌, ◌≢◌, refl, ◌==◌, bytes_eq, bytes_eq_iff, bytes_eq_ne, Bool-cases, inl, inr, some, ok,
  arith, false, Option-cases,
}
use mathlib.Core.Path.{subst}
use rog.Prelude.Word.{Bytes}
use rog.Prelude.Maps.{set, insert}
use rog.Connector.RevGrpc.Clients.{Managers}
use rog.Connector.RevGrpc.Rendezvous.{
  Service, Pending, Call, empty, Handler, Pool, sending, nothing_pending, Config, begin,
}
use rog.Connector.RevGrpc.Rendezvous.Inv.{owner, Owns, Entry, Inv, Served-eq}

module _ (v : Service) (uuid : ℕ → Bytes) (uuid_new : (i j : ℕ) → uuid i ≡ uuid j → i ≡ j)
    (p : Pool v) (inv : Inv v uuid p) (cfg : Config) (info : v.Info) (n : ℕ) where
  abbrev new_entry : Pending v
  new_entry = record { tx = p.next; info = info; pw = cfg.pw }

  abbrev new_call : Call v
  new_call = record {
    manager_tx = n;
    info = info;
    pw = cfg.pw;
    phase = sending;
    slot = empty;
    deaf = false;
  }

  abbrev after : Pool v
  after = record p {
    pending = insert (uuid p.next) new_entry p.pending;
    calls = set p.next new_call p.calls;
    next = suc p.next;
  }

  begin-Entry : (k : Bytes) (e : Pending v) → after.pending k ≡ some e → Entry v uuid after k e
  begin-Entry k e q = elim (Bool-cases (bytes_eq k (uuid p.next))) [
    | inl same ↦
        let e_is : e ≡ new_entry = ground (arith, same, q) in
        record {
          call = new_call;
          there = ground (arith, e_is);
          key = ground (arith, e_is, bytes_eq_iff k (uuid p.next));
          info = ground (arith, e_is);
          pw = ground (arith, e_is);
          open' = tt;
        }
    | inr other ↦
        let w = inv.entries k e (rw other at q) in
        record {
          call = w.call;
          there = ground (arith, w.there, inv.calls_below p.next);
          key = w.key;
          info = w.info;
          pw = w.pw;
          open' = w.open';
        }
  ]

  begin-Owns :
      (h : ℕ) (hd : Handler v) (e : Pending v)
      → p.handlers h ≡ some hd
      → owner v hd.stage ≡ some e
      → Owns v uuid after hd e
  begin-Owns h hd e q o =
      let w = inv.owners h hd e q o in
      let older : e.tx ≢ p.next = λ t. ground (arith, w.there, inv.calls_below p.next) in
      record {
        call = w.call;
        there = ground (arith, w.there, older);
        info = w.info;
        pw = w.pw;
        removed =
            rw (bytes_eq_ne (uuid e.tx) (uuid p.next) (λ s. older (uuid_new e.tx p.next s)))
              w.removed;
        first_msg = w.first_msg;
        in_stream = w.in_stream;
        events = w.events;
        conn_id = w.conn_id;
      }

  pub begin_with-Inv : Inv v uuid after
  begin_with-Inv = record {
    calls_below = λ j le. ground (arith, inv.calls_below j);
    handlers_below = inv.handlers_below;
    entries = begin-Entry;
    owners = begin-Owns;
    once = inv.once;
    slots = λ j d conn h q s. elim (Bool-cases (j == p.next)) [
      | inl same ↦ absurd (ground (arith, same, q, s))
      | inr other ↦
          Served-eq v uuid p after j d d conn h refl refl refl
            (inv.slots j d conn h (rw other at q) s)
    ];
    results = λ j d conn q f. elim (Bool-cases (j == p.next)) [
      | inl same ↦ absurd (ground (arith, same, q, f))
      | inr other ↦ inv.results j d conn (rw other at q) f
    ];
  }

module _ (v : Service) (uuid : ℕ → Bytes) where
  pub nothing_pending-Inv : Inv v uuid (nothing_pending v)
  unfolding nothing_pending
  nothing_pending-Inv = record {
    calls_below = λ i le. refl;
    handlers_below = λ h le. refl;
    entries = λ k e q. absurd (cc);
    owners = λ h hd e q. absurd (cc);
    once = λ h h' hd hd' e e' q. absurd (cc);
    slots = λ i c conn h q. absurd (cc);
    results = λ i c conn q. absurd (cc);
  }

  module _ (uuid_new : (i j : ℕ) → uuid i ≡ uuid j → i ≡ j) where
    pub begin-Inv :
        (cfg : Config) (info : v.Info) (m : Managers) (p p' : Pool v)
        → Inv v uuid p
        → begin v uuid cfg info m p ≡ ok p'
        → Inv v uuid p'
    unfolding begin
    begin-Inv cfg info m p p' inv e = elim (Option-cases (m.managers cfg.name)) [
      | inl q ↦ absurd (ground (arith, q, e))
      | inr (n, q) ↦
          subst (Inv v uuid)
            (let f : after v uuid uuid_new p inv cfg info n ≡ p' = ground (arith, q, e) in f)
            (begin_with-Inv v uuid uuid_new p inv cfg info n)
    ]
