-- ===== src/Connector/RevGrpc/Clients/Registry.antt =====
-- src/connector/rev_grpc.rs: the map of managers holds exactly the sessions that have not ended.
use rog.Prelude.{
  ℕ, ◌≤◌, ◌≡◌, ◌≢◌, refl, sym, ◌==◌, if◌then◌else◌, not, bytes_eq, bytes_eq_iff, Bool-cases, Bool,
  inl, inr, none, some, Option, arith, true, false, [], ◌∷◌, ◌++◌,
}
use mathlib.Core.Path.{subst}
use rog.Prelude.Word.{Bytes}
use rog.Prelude.Channel.{message, status, Streaming}
use rog.Prelude.Maps.{Map, set, remove}
use rog.Proto.{ManagerReq, ManagerRes}
use rog.Connector.RevGrpc.Clients.{
  refused, unauthenticated, Session, Managers, none_connected, authorized, expected, opened, enter,
  manager, hang_up, with_closed, disconnect, with_end, send, with_sent,
}

-- The sessions and their entries.
pub record Registry (pw_map : Map (Option Bytes)) (m : Managers) : Type 0 where
  pub below : (n : ℕ) → m.next ≤ n → m.sessions n ≡ none
  pub live :
      (k : Bytes) (n : ℕ)
      → m.managers k ≡ some n
      → (s : Session) × (m.sessions n ≡ some s) × (s.first_msg.tag ≡ k) × (s.ended ≡ false)
  pub listed :
      (n : ℕ) (s : Session)
      → m.sessions n ≡ some s
      → s.ended ≡ false
      → m.managers s.first_msg.tag ≡ some n
  pub allowed :
      (n : ℕ) (s : Session)
      → m.sessions n ≡ some s
      → authorized (expected (pw_map s.first_msg.tag)) s.first_msg.auth ≡ true

module _ (pw_map : Map (Option Bytes)) where
  pub none_connected-Registry : Registry pw_map none_connected
  unfolding none_connected
  none_connected-Registry = record {
    below = λ n le. refl;
    live = λ k n q. absurd (cc);
    listed = λ n s q. absurd (cc);
    allowed = λ n s q. absurd (cc);
  }

  module _ (m : Managers) (r : Registry pw_map m) where
    -- A change of a session that leaves its client and its end alone.
    update-Registry :
        (n : ℕ) (s s' : Session)
        → m.sessions n ≡ some s
        → s'.first_msg ≡ s.first_msg
        → s'.ended ≡ s.ended
        → Registry pw_map (record m { sessions = set n s' m.sessions })
    update-Registry n s s' here first ended = record {
      below = λ j le. ground (arith, r.below j, r.below n);
      live = λ k j q.
          let (t, at, tag, e) = r.live k j q in
          elim (Bool-cases (j == n)) [
            | inl same ↦ (
              s',
              rw same refl,
              ground (arith, here, at, tag, first),
              ground (arith, here, at, ended, e),
            )
            | inr other ↦ (t, rw other at, tag, e)
          ];
      listed = λ j t q e. elim (Bool-cases (j == n)) [
        | inl same ↦ ground (arith, r.listed n s here)
        | inr other ↦ r.listed j t (rw other at q) e
      ];
      allowed = λ j t q. elim (Bool-cases (j == n)) [
        | inl same ↦ ground (arith, r.allowed n s here)
        | inr other ↦ r.allowed j t (rw other at q)
      ];
    }

    with_closed-Registry :
        (n : ℕ) (o : Option Session) → m.sessions n ≡ o → Registry pw_map (with_closed n o m)
    with_closed-Registry n none q = r
    with_closed-Registry n (some s) q = update-Registry n s (record s { closed = true }) q refl refl

    pub hang_up-Registry : (n : ℕ) → Registry pw_map (hang_up n m)
    unfolding hang_up
    hang_up-Registry n = with_closed-Registry n (m.sessions n) refl

    with_sent-Registry :
        (n : ℕ) (req : ManagerRes) (o : Option Session) (m' : Managers)
        → m.sessions n ≡ o
        → with_sent n req o m ≡ some m'
        → Registry pw_map m'
    with_sent-Registry n req none m' q e = absurd (cc)
    with_sent-Registry n req (some s) m' q e = elim (Bool-cases s.closed) [
      | inl c ↦ absurd (ground (arith, c, e))
      | inr c ↦
          let s' : Session = record s { sent = s.sent ++ req ∷ [] } in
          subst (Registry pw_map)
            (let f : record m { sessions = set n s' m.sessions } ≡ m' = ground (arith, c, e) in f)
            (update-Registry n s s' q refl refl)
    ]

    pub send-Registry :
        (n : ℕ) (req : ManagerRes) (m' : Managers) → send n req m ≡ some m' → Registry pw_map m'
    unfolding send
    send-Registry n req m' e = with_sent-Registry n req (m.sessions n) m' refl e

    end-Registry :
        (n : ℕ) (s : Session)
        → m.sessions n ≡ some s
        → s.ended ≡ false
        → Registry pw_map (record m {
          managers = remove s.first_msg.tag m.managers;
          sessions = set n (record s { ended = true }) m.sessions;
        })
    end-Registry n s here e = record {
      below = λ j le. ground (arith, r.below j, r.below n);
      live = λ k j q.
          let (t, at, tag, f) = r.live k j (ground arith) in
          let other : j ≢ n =
            λ j_is. ground (arith, j_is, here, at, tag, bytes_eq_iff k s.first_msg.tag) in
          (t, ground (arith, other), tag, f);
      listed = λ j t q f. elim (Bool-cases (j == n)) [
        | inl same ↦ absurd (ground arith)
        | inr other ↦
            let l = r.listed j t (rw other at q) f in
            ground (arith, l, r.listed n s here e, bytes_eq_iff t.first_msg.tag s.first_msg.tag)
      ];
      allowed = λ j t q. elim (Bool-cases (j == n)) [
        | inl same ↦ ground (arith, r.allowed n s here)
        | inr other ↦ r.allowed j t (rw other at q)
      ];
    }

    with_end-Registry :
        (n : ℕ) (o : Option Session) → m.sessions n ≡ o → Registry pw_map (with_end n o m)
    with_end-Registry n none q = r
    with_end-Registry n (some s) q = end_if s.ended q refl
      where
        end_if :
            (b : Bool)
            → m.sessions n ≡ some s
            → s.ended ≡ b
            → Registry pw_map (
                if b then m else record m {
                  managers = remove s.first_msg.tag m.managers;
                  sessions = set n (record s { ended = true }) m.sessions;
                })
        end_if true q e = r
        end_if false q e = end-Registry n s q e

    pub disconnect-Registry : (n : ℕ) → Registry pw_map (disconnect n m)
    unfolding disconnect
    disconnect-Registry n = with_end-Registry n (m.sessions n) refl

    enter-Registry :
        (first_msg : ManagerReq) (o : Option ℕ)
        → m.managers first_msg.tag ≡ o
        → authorized (expected (pw_map first_msg.tag)) first_msg.auth ≡ true
        → Registry pw_map (enter first_msg o m).1
    unfolding enter
    enter-Registry first_msg (some n) q a = r
    enter-Registry first_msg none q a = record {
      below = λ j le. ground (arith, r.below j);
      live = λ k j e. elim (Bool-cases (bytes_eq k first_msg.tag)) [
        | inl same ↦
            let j_is : m.next ≡ j = ground (arith, same, e) in
            (
              opened first_msg,
              ground (arith, j_is),
              sym ((bytes_eq_iff k first_msg.tag).0 same),
              refl,
            )
        | inr other ↦
            let (t, at, tag, f) = r.live k j (rw other at e) in
            (t, ground (arith, at, r.below m.next), tag, f)
      ];
      listed = λ j t e f. elim (Bool-cases (j == m.next)) [
        | inl same ↦
            let t_is : opened first_msg ≡ t = ground (arith, same, e) in
            ground (arith, t_is, bytes_eq_iff t.first_msg.tag first_msg.tag)
        | inr other ↦
            let l = r.listed j t (rw other at e) f in
            ground (arith, l, q, bytes_eq_iff t.first_msg.tag first_msg.tag)
      ];
      allowed = λ j t e. elim (Bool-cases (j == m.next)) [
        | inl same ↦ ground (arith, a)
        | inr other ↦ r.allowed j t (rw other at e)
      ];
    }

    pub manager-Registry :
        (events : Streaming ManagerReq) → Registry pw_map (manager pw_map events m).1
    unfolding manager
    manager-Registry [] = r
    manager-Registry (status e ∷ in_stream) = r
    manager-Registry (message f ∷ in_stream) =
        checked (authorized (expected (pw_map f.tag)) f.auth) refl
      where
        checked :
            (b : Bool)
            → authorized (expected (pw_map f.tag)) f.auth ≡ b
            → Registry pw_map
                (if not b
                  then (refused unauthenticated "invalid auth", m)
                  else enter f (m.managers f.tag) m).1
        checked true e = enter-Registry f (m.managers f.tag) refl e
        checked false e = r
