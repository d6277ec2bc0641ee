-- ===== src/Connector/RevGrpc/Rendezvous/Serve.antt =====
-- src/connector/rev_grpc.rs: what a request that holds an entry sends to the call.
use rog.Prelude.{
  ℕ, ◌≡◌, ◌≢◌, refl, sym, ap, ◌∙◌, ◌==◌, if◌then◌else◌, Bool-cases, Option-cases, Bool, not, inl,
  inr, some, arith, true, false, [], ◌∷◌,
}
use mathlib.Core.Path.{subst}
use rog.Prelude.Word.{Bytes}
use rog.Prelude.Channel.{message, status, Streaming}
use rog.Connector.RevGrpc.Clients.{Reply, refused, granted, unauthenticated, authorized}
use rog.Connector.RevGrpc.Rendezvous.{
  Service, Pending, Call, Slot, Stage, Handler, Pool, delivered, dropped, rejected, claimed, served,
  serve, serve_from, deliver, answer,
}
use rog.Connector.RevGrpc.Rendezvous.Inv.{owner, IsOpen, Served, Owns, Entry, Inv, Served-eq}

module _ (v : Service) (uuid : ℕ → Bytes) (p : Pool v) (inv : Inv v uuid p) where
  if-Inv :
      (b : Bool) (x y : Pool v)
      → (b ≡ true → Inv v uuid x)
      → (b ≡ false → Inv v uuid y)
      → Inv v uuid (if b then x else y)
  if-Inv true x y f g = f refl
  if-Inv false x y f g = g refl

  module _ (h : ℕ) (hd : Handler v) (e : Pending v) (first_msg : v.Req)
      (in_stream : Streaming v.Req) (at_h : p.handlers h ≡ some hd) (stage : hd.stage ≡ claimed e)
      (events : hd.events ≡ message first_msg ∷ in_stream) (c : Call v)
      (here : p.calls e.tx ≡ some c) where
    -- The call of a claimed entry was not served yet.
    unserved : (conn : v.Conn) (g : ℕ) → c.slot ≢ delivered conn g
    unserved conn g s =
        let w = inv.slots e.tx c conn g here s in
        let same : h ≡ g =
          inv.once h g hd w.handler e w.entry at_h (rw stage refl) w.there (rw w.stage refl)
            (sym w.target) in
        cc (same, w.there, w.stage, at_h, stage)

    module _ (s : Slot v) (reply : Reply)
        (good : (conn : v.Conn) (g : ℕ)
          → s ≡ delivered conn g
          → (g ≡ h)
            × (conn ≡ v.open_conn first_msg in_stream c.info)
            × (authorized c.pw (v.auth first_msg) ≡ true)) where
      abbrev told : Call v
      told = record c { slot = s }

      abbrev finished : Handler v
      finished = record hd { stage = served e reply }

      abbrev after : Pool v
      after = answer v uuid h hd e reply e.tx (some told) p

      answer-Entry : (k : Bytes) (d : Pending v) → p.pending k ≡ some d → Entry v uuid after k d
      answer-Entry k d q =
          let w = inv.entries k d q in
          elim (Bool-cases (d.tx == e.tx)) [
            | inl same ↦ record {
              call = told;
              there = rw same refl;
              key = w.key;
              info = ground (arith, here, w.there, w.info);
              pw = ground (arith, here, w.there, w.pw);
              open' =
                  subst (λ (x : Call v). IsOpen v x.phase)
                    (let r : w.call ≡ c = ground (arith, here, w.there) in r) w.open';
            }
            | inr other ↦ record {
              call = w.call;
              there = rw other w.there;
              key = w.key;
              info = w.info;
              pw = w.pw;
              open' = w.open';
            }
          ]

      -- An owner after the answer was one before it.
      before :
          (g : ℕ) (hd' : Handler v) (d : Pending v)
          → after.handlers g ≡ some hd'
          → owner v hd'.stage ≡ some d
          → (old : Handler v) × (p.handlers g ≡ some old)
            × (owner v old.stage ≡ some d)
            × (old.events ≡ hd'.events)
      before g hd' d q o = elim (Bool-cases (g == h)) [
        | inl same ↦
            let hd'_is : finished ≡ hd' = ground (arith, same, q) in
            let e_is : e ≡ d = ground (arith, hd'_is, o) in
            (hd, ground (arith, at_h), rw (stage, e_is) refl, ground (arith, hd'_is))
        | inr other ↦ (hd', rw other at q, o, refl)
      ]

      answer-Owns :
          (g : ℕ) (hd' : Handler v) (d : Pending v)
          → after.handlers g ≡ some hd'
          → owner v hd'.stage ≡ some d
          → Owns v uuid after hd' d
      answer-Owns g hd' d q o =
          let (old, at_g, own, ev) = before g hd' d q o in
          let w = inv.owners g old d at_g own in
          elim (Bool-cases (d.tx == e.tx)) [
            | inl same ↦ record {
              call = told;
              there = rw same refl;
              info = ground (arith, here, w.there, w.info);
              pw = ground (arith, here, w.there, w.pw);
              removed = w.removed;
              first_msg = w.first_msg;
              in_stream = w.in_stream;
              events = sym ev ∙ w.events;
              conn_id = w.conn_id;
            }
            | inr other ↦ record {
              call = w.call;
              there = rw other w.there;
              info = w.info;
              pw = w.pw;
              removed = w.removed;
              first_msg = w.first_msg;
              in_stream = w.in_stream;
              events = sym ev ∙ w.events;
              conn_id = w.conn_id;
            }
          ]

      answer-once :
          (g g' : ℕ) (hd' hd'' : Handler v) (d d' : Pending v)
          → after.handlers g ≡ some hd'
          → owner v hd'.stage ≡ some d
          → after.handlers g' ≡ some hd''
          → owner v hd''.stage ≡ some d'
          → d.tx ≡ d'.tx
          → g ≡ g'
      answer-once g g' hd' hd'' d d' q o q' o' t =
          let (old, at_g, own, _) = before g hd' d q o in
          let (old', at_g', own', _) = before g' hd'' d' q' o' in
          inv.once g g' old old' d d' at_g own at_g' own' t

      answer-Served :
          (j : ℕ) (d : Call v) (conn : v.Conn) (g : ℕ)
          → after.calls j ≡ some d
          → d.slot ≡ delivered conn g
          → Served v uuid after j d conn g
      answer-Served j d conn g q r = elim (Bool-cases (j == e.tx)) [
        | inl same ↦
            let d_is : d ≡ told = ground (arith, same, q) in
            let j_is : e.tx ≡ j = ground arith in
            let (g_is, made, password) = good conn g (ground (arith, d_is, r)) in
            let o = inv.owners h hd e at_h (rw stage refl) in
            record {
              handler = finished;
              entry = e;
              reply = reply;
              first_msg = first_msg;
              in_stream = in_stream;
              there = ground (arith, g_is);
              stage = refl;
              target = j_is;
              events = events;
              conn_id =
                  (let f : o.first_msg ≡ first_msg = cc (o.events, events) in
                    ap v.conn_id (sym f) ∙ o.conn_id ∙ ap (λ k. some (uuid k)) j_is);
              password = (let f : d.pw ≡ c.pw = ground (arith, d_is) in cc (f, password));
              made = (let f : d.info ≡ c.info = ground (arith, d_is) in cc (f, made));
            }
        | inr other ↦
            let w = inv.slots j d conn g (rw other at q) r in
            let elsewhere : g ≢ h = λ t. cc (t, w.there, w.stage, at_h, stage) in
            Served-eq v uuid p after j d d conn g (ground (arith, elsewhere)) refl refl w
      ]

      pub answer-Inv : Inv v uuid after
      answer-Inv = record {
        calls_below = λ j le. ground (arith, inv.calls_below j, inv.calls_below e.tx);
        handlers_below = λ g le. ground (arith, inv.handlers_below g, inv.handlers_below h);
        entries = answer-Entry;
        owners = answer-Owns;
        once = answer-once;
        slots = answer-Served;
        results = λ j d conn q f. elim (Bool-cases (j == e.tx)) [
          | inl same ↦
              let d_is : d ≡ told = ground (arith, same, q) in
              let (g, t) = inv.results e.tx c conn here (ground (arith, d_is, f)) in
              absurd (unserved conn g t)
          | inr other ↦ inv.results j d conn (rw other at q) f
        ];
      }

    deliver-Inv : Inv v uuid (deliver v uuid h hd e first_msg in_stream p)
    unfolding deliver
    deliver-Inv = rw here (
        if-Inv (not (authorized e.pw (v.auth first_msg))) _ _
          (λ bad.
            answer-Inv dropped (refused unauthenticated v.invalid_auth) (λ conn g q. absurd (cc)))
          (λ good.
            if-Inv c.deaf _ _
              (λ deaf. answer-Inv c.slot v.undelivered (λ conn g q. absurd (unserved conn g q)))
              (λ hears.
                let o = inv.owners h hd e at_h (rw stage refl) in
                let same : o.call ≡ c = cc (o.there, here) in
                answer-Inv (delivered (v.open_conn first_msg in_stream e.info) h) granted
                  (λ conn g q.
                    let i_is : c.info ≡ e.info = cc (same, o.info) in
                    let p_is : c.pw ≡ e.pw = cc (same, o.pw) in
                    (cc (q), cc (q, i_is), rw p_is (ground (arith, good)))))))

  serve_from-Inv :
      (h : ℕ) (hd : Handler v) (st : Stage v) (events : Streaming v.Req)
      → p.handlers h ≡ some hd
      → hd.stage ≡ st
      → hd.events ≡ events
      → Inv v uuid (serve_from v uuid h hd st events p)
  unfolding serve_from
  serve_from-Inv h hd (claimed e) (message first_msg ∷ in_stream) q s ev =
      let o = inv.owners h hd e q (rw s refl) in
      deliver-Inv h hd e first_msg in_stream q s ev o.call o.there
  serve_from-Inv h hd (claimed e) [] q s ev = inv
  serve_from-Inv h hd (claimed e) (status t ∷ in_stream) q s ev = inv
  serve_from-Inv h hd (rejected r) events q s ev = inv
  serve_from-Inv h hd (served e r) events q s ev = inv

  pub serve-Inv : (h : ℕ) → Inv v uuid (serve v uuid h p)
  unfolding serve
  serve-Inv h = elim (Option-cases (p.handlers h)) [
    | inl e ↦ rw e inv
    | inr (hd, e) ↦ rw e (serve_from-Inv h hd hd.stage hd.events e refl refl)
  ]
