-- ===== src/Connector/RevGrpc/Rendezvous/Calls.antt =====
-- src/connector/rev_grpc.rs: every step of a call keeps the invariant.
use rog.Prelude.{
  ℕ, ◌≡◌, ◌≢◌, refl, bytes_eq_iff, Option-cases, inl, inr, none, some, Option, Result, ok, err,
  arith, Bool, true, connection_aborted, timed_out,
}
use rog.Prelude.Word.{Bytes}
use rog.Prelude.Maps.{set, remove}
use rog.Connector.RevGrpc.Clients.{Managers, send}
use rog.Connector.RevGrpc.Rendezvous.{
  Service, Phase, Call, Slot, empty, dropped, Pool, sending, waiting, cleaning, done, delivered,
  send_request, receive, time_out, clean, send_from, sent_or, taken, receive_from, late,
  time_out_from, clean_from,
}
use rog.Connector.RevGrpc.Rendezvous.Inv.{IsOpen, Inv}
use rog.Connector.RevGrpc.Rendezvous.Recall.{recall-Inv}

module _ (v : Service) (uuid : ℕ → Bytes) (p : Pool v) (inv : Inv v uuid p) where
  -- A call that goes on.
  still-Inv :
      (i : ℕ) (c : Call v) (ph : Phase v) (deaf : Bool)
      → p.calls i ≡ some c
      → IsOpen v ph
      → ((r : Result v.Conn) → ph ≢ done r)
      → Inv v uuid (record p { calls = set i (record c { phase = ph; deaf = deaf }) p.calls })
  still-Inv i c ph deaf here open' ne =
      recall-Inv v uuid p inv i c (record c { phase = ph; deaf = deaf }) p.pending here refl refl
        refl (λ k e q. q) (λ k q. q) (λ k e q t. open') (λ conn q. absurd (ne (ok conn) q))

  -- No entry is left for a call that was served.
  served-unlisted :
      (i : ℕ) (c : Call v) (conn : v.Conn) (h : ℕ)
      → p.calls i ≡ some c
      → c.slot ≡ delivered conn h
      → p.pending (uuid i) ≡ none
  served-unlisted i c conn h here s =
      let w = inv.slots i c conn h here s in
      let o = inv.owners h w.handler w.entry w.there (rw w.stage refl) in rw⁻¹ w.target o.removed

  -- The end of a call that was served.
  received-Inv :
      (i : ℕ) (c : Call v) (conn : v.Conn) (h : ℕ)
      → p.calls i ≡ some c
      → c.slot ≡ delivered conn h
      → Inv v uuid
          (record p { calls = set i (record c { phase = done (ok conn); deaf = true }) p.calls })
  received-Inv i c conn h here s =
      recall-Inv v uuid p inv i c (record c { phase = done (ok conn); deaf = true }) p.pending here
        refl refl refl (λ k e q. q) (λ k q. q)
        (λ k e q t.
          let w = inv.entries k e q in absurd (cc (served-unlisted i c conn h here s, w.key, t, q)))
        (λ other q. (h, ground arith))

  sent_or-Inv :
      (i : ℕ) (c : Call v) (r : Option Managers) (m : Managers)
      → p.calls i ≡ some c
      → Inv v uuid (sent_or v uuid i c r m p).1
  sent_or-Inv i c none m here =
      still-Inv i c (cleaning connection_aborted v.send_failed) c.deaf here tt (λ r q. cc)
  sent_or-Inv i c (some m') m here = still-Inv i c waiting c.deaf here tt (λ r q. cc)

  send_from-Inv :
      (i : ℕ) (c : Call v) (ph : Phase v) (m : Managers)
      → p.calls i ≡ some c
      → Inv v uuid (send_from v uuid i c ph m p).1
  unfolding send_from
  send_from-Inv i c sending m here =
      sent_or-Inv i c (send c.manager_tx (v.request (uuid i) c.info) m) m here
  send_from-Inv i c waiting m here = inv
  send_from-Inv i c (cleaning k t) m here = inv
  send_from-Inv i c (done r) m here = inv

  pub send_request-Inv : (i : ℕ) (m : Managers) → Inv v uuid (send_request v uuid i m p).1
  unfolding send_request
  send_request-Inv i m = elim (Option-cases (p.calls i)) [
    | inl e ↦ rw e inv
    | inr (c, e) ↦ rw e (send_from-Inv i c c.phase m e)
  ]

  taken-Inv :
      (i : ℕ) (c : Call v) (s : Slot v)
      → p.calls i ≡ some c
      → c.slot ≡ s
      → Inv v uuid (taken v uuid i c s p)
  taken-Inv i c empty here e = inv
  taken-Inv i c dropped here e =
      still-Inv i c (cleaning connection_aborted v.channel_closed) true here tt (λ r q. cc)
  taken-Inv i c (delivered conn h) here e = received-Inv i c conn h here e

  receive_from-Inv :
      (i : ℕ) (c : Call v) (ph : Phase v)
      → p.calls i ≡ some c
      → Inv v uuid (receive_from v uuid i c ph p)
  unfolding receive_from
  receive_from-Inv i c waiting here = taken-Inv i c c.slot here refl
  receive_from-Inv i c sending here = inv
  receive_from-Inv i c (cleaning k t) here = inv
  receive_from-Inv i c (done r) here = inv

  pub receive-Inv : (i : ℕ) → Inv v uuid (receive v uuid i p)
  unfolding receive
  receive-Inv i = elim (Option-cases (p.calls i)) [
    | inl e ↦ rw e inv
    | inr (c, e) ↦ rw e (receive_from-Inv i c c.phase e)
  ]

  late-Inv :
      (i : ℕ) (c : Call v) (s : Slot v) → p.calls i ≡ some c → Inv v uuid (late v uuid i c s p)
  late-Inv i c empty here = still-Inv i c (cleaning timed_out v.no_answer) true here tt (λ r q. cc)
  late-Inv i c dropped here = inv
  late-Inv i c (delivered conn h) here = inv

  time_out_from-Inv :
      (i : ℕ) (c : Call v) (ph : Phase v)
      → p.calls i ≡ some c
      → Inv v uuid (time_out_from v uuid i c ph p)
  unfolding time_out_from
  time_out_from-Inv i c waiting here = late-Inv i c c.slot here
  time_out_from-Inv i c sending here = inv
  time_out_from-Inv i c (cleaning k t) here = inv
  time_out_from-Inv i c (done r) here = inv

  pub time_out-Inv : (i : ℕ) → Inv v uuid (time_out v uuid i p)
  unfolding time_out
  time_out-Inv i = elim (Option-cases (p.calls i)) [
    | inl e ↦ rw e inv
    | inr (c, e) ↦ rw e (time_out_from-Inv i c c.phase e)
  ]

  clean_from-Inv :
      (i : ℕ) (c : Call v) (ph : Phase v)
      → p.calls i ≡ some c
      → Inv v uuid (clean_from v uuid i c ph p)
  unfolding clean_from
  clean_from-Inv i c (cleaning kind text) here =
      recall-Inv v uuid p inv i c (record c { phase = done (err kind text); deaf = true })
        (remove (uuid i) p.pending) here refl refl refl (λ k e q. ground (arith))
        (λ k q. ground (arith))
        (λ k e q t.
          let w = inv.entries k e (ground arith) in
          absurd (ground (arith, bytes_eq_iff k (uuid i), w.key, t)))
        (λ conn q. absurd (cc))
  clean_from-Inv i c sending here = inv
  clean_from-Inv i c waiting here = inv
  clean_from-Inv i c (done r) here = inv

  pub clean-Inv : (i : ℕ) → Inv v uuid (clean v uuid i p)
  unfolding clean
  clean-Inv i = elim (Option-cases (p.calls i)) [
    | inl e ↦ rw e inv
    | inr (c, e) ↦ rw e (clean_from-Inv i c c.phase e)
  ]
