-- ===== src/Connector/RevGrpc/Rendezvous/Ends.antt =====
-- src/connector/rev_grpc.rs: a call comes to its end by steps of its own.
use rog.Prelude.{
  ℕ, ◌≡◌, refl, some, Result, ok, timed_out, connection_aborted, err, true, arith, Option-cases,
  inl, inr,
}
use rog.Prelude.Word.{Bytes}
use rog.Connector.RevGrpc.Clients.{Managers, send}
use rog.Connector.RevGrpc.Rendezvous.{
  Service, Phase, Call, Slot, Pool, empty, dropped, delivered, sending, waiting, cleaning, done,
  send_request, receive, time_out, clean, send_from, receive_from, time_out_from, clean_from,
  on_call,
}

module _ (v : Service) (uuid : ℕ → Bytes) (i : ℕ) where
  abbrev pub Ended : Pool v → Type 0
  Ended p = (c : Call v) × (r : Result v.Conn) × (p.calls i ≡ some c) × (c.phase ≡ done r)

  abbrev pub finish : Pool v → Pool v
  finish p = clean v uuid i (time_out v uuid i (receive v uuid i p))

  -- A call in a phase, with what its channel holds.
  abbrev At : Call v → Phase v → Slot v → Pool v → Type 0
  At c ph s p = (p.calls i ≡ some c) × (c.phase ≡ ph) × (c.slot ≡ s)

  IsSent : Phase v → Type 0
  IsSent sending = ⊥
  IsSent _ = Unit {0}

  finish-Ended :
      (c : Call v) (ph : Phase v) (s : Slot v) (p : Pool v)
      → IsSent ph
      → At c ph s p
      → Ended (finish p)
  unfolding IsSent receive time_out clean on_call receive_from time_out_from clean_from
  finish-Ended c sending s p ne a = absurd ne
  finish-Ended c waiting empty p ne a = (
    record c { phase = done (err timed_out v.no_answer); deaf = true },
    err timed_out v.no_answer,
    ground arith,
    refl,
  )
  finish-Ended c waiting dropped p ne a = (
    record c { phase = done (err connection_aborted v.channel_closed); deaf = true },
    err connection_aborted v.channel_closed,
    ground arith,
    refl,
  )
  finish-Ended c waiting (delivered conn h) p ne a =
      (record c { phase = done (ok conn); deaf = true }, ok conn, ground arith, refl)
  finish-Ended c (cleaning k t) s p ne a =
      (record c { phase = done (err k t); deaf = true }, err k t, ground arith, refl)
  finish-Ended c (done r) s p ne a = (c, r, ground arith, a.1)

  sending-At :
      (c : Call v) (ph : Phase v) (m : Managers) (p : Pool v)
      → p.calls i ≡ some c
      → c.phase ≡ ph
      → (c' : Call v) × (ph' : Phase v) × IsSent ph'
        × At c' ph' c'.slot (send_request v uuid i m p).1
  unfolding IsSent send_request on_call send_from
  sending-At c sending m p q e =
      elim (Option-cases (send c.manager_tx (v.request (uuid i) c.info) m)) [
        | inl f ↦ (
          record c { phase = cleaning connection_aborted v.send_failed },
          cleaning connection_aborted v.send_failed,
          tt,
          (ground arith, refl, refl),
        )
        | inr (m', f) ↦ (record c { phase = waiting }, waiting, tt, (ground arith, refl, refl))
      ]
  sending-At c waiting m p q e = (c, waiting, tt, (ground arith, e, refl))
  sending-At c (cleaning k t) m p q e = (c, cleaning k t, tt, (ground arith, e, refl))
  sending-At c (done r) m p q e = (c, done r, tt, (ground arith, e, refl))

  pub send_request-finish-Ended :
      (c : Call v) (m : Managers) (p : Pool v)
      → p.calls i ≡ some c
      → Ended (finish (send_request v uuid i m p).1)
  send_request-finish-Ended c m p q =
      let (c', ph, ne, a) = sending-At c c.phase m p q refl in
      finish-Ended c' ph c'.slot (send_request v uuid i m p).1 ne a
