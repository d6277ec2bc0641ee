-- ===== src/Connector/RevGrpc/Clients.antt =====
-- src/connector/rev_grpc.rs, `RevGrpcServer::manager`: the reverse clients that are connected, by
-- their tags. A client that connects opens a session: the channel to it, and the task that waits
-- for its end. The texts of the errors leave out the tag.
pub mod Registry
use rog.Prelude.{
  ℕ, suc, not, if◌then◌else◌, Bool, true, false, bytes_eq, Option, none, some, List, [], ◌∷◌, ◌++◌,
  String,
}
use rog.Prelude.Word.{Bytes}
use rog.Prelude.Channel.{message, status, Streaming}
use rog.Prelude.Maps.{Map, insert, remove, Table, set}
use rog.Proto.{ManagerReq, ManagerRes}

pub data Code : Type 0 where
  invalid_argument unauthenticated already_exists not_found internal transport : Code

-- What a handler of the service answers.
pub data Reply : Type 0 where
  granted : Reply
  refused : Code → String → Reply

pub record Session : Type 0 where
  pub first_msg : ManagerReq
  pub sent : List ManagerRes
  -- The client dropped the receiving end.
  pub closed : Bool
  -- The task that waits for the end of the client's messages has finished.
  pub ended : Bool

-- `managers` maps a tag to the sender of a session.
pub record Managers : Type 0 where
  pub managers : Map ℕ
  pub sessions : Table Session
  pub next : ℕ

unfoldable pub none_connected : Managers
none_connected = record { managers = λ k. none; sessions = λ i. none; next = 0 }

-- `auth` against a password, if there is one.
abbrev pub authorized : Option Bytes → Bytes → Bool
authorized none auth = true
authorized (some expected_pw) auth = bytes_eq auth expected_pw

abbrev pub expected : Option (Option Bytes) → Option Bytes
expected none = none
expected (some pw) = pw

abbrev pub opened : ManagerReq → Session
opened first_msg = record { first_msg = first_msg; sent = []; closed = false; ended = false }

-- The entry of the tag.
enter : ManagerReq → Option ℕ → Managers → Reply × Managers
enter first_msg (some n) m = (refused already_exists "client is already connected", m)
enter first_msg none m = (
  granted,
  record {
    managers = insert first_msg.tag m.next m.managers;
    sessions = set m.next (opened first_msg) m.sessions;
    next = suc m.next;
  },
)

-- The handler, on the messages of a new client.
unfoldable pub manager : Map (Option Bytes) → Streaming ManagerReq → Managers → Reply × Managers
unfolding enter
manager pw_map [] m = (refused invalid_argument "missing first auth message", m)
manager pw_map (status e ∷ in_stream) m = (refused transport e, m)
manager pw_map (message first_msg ∷ in_stream) m =
    if not (authorized (expected (pw_map first_msg.tag)) first_msg.auth)
    then (refused unauthenticated "invalid auth", m)
    else enter first_msg (m.managers first_msg.tag) m

-- The client drops the receiving end of session `n`.
abbrev with_closed : ℕ → Option Session → Managers → Managers
with_closed n none m = m
with_closed n (some s) m = record m { sessions = set n (record s { closed = true }) m.sessions }

unfoldable pub hang_up : ℕ → Managers → Managers
hang_up n m = with_closed n (m.sessions n) m

-- The task of session `n` sees the end of the client's messages and removes the tag.
abbrev with_end : ℕ → Option Session → Managers → Managers
with_end n none m = m
with_end n (some s) m = if s.ended then m else record m {
  managers = remove s.first_msg.tag m.managers;
  sessions = set n (record s { ended = true }) m.sessions;
}

unfoldable pub disconnect : ℕ → Managers → Managers
disconnect n m = with_end n (m.sessions n) m

-- `manager_tx.send(Ok(req))`; `none` where the receiver is gone.
abbrev with_sent : ℕ → ManagerRes → Option Session → Managers → Option Managers
with_sent n req none m = none
with_sent n req (some s) m =
    if s.closed
    then none
    else some (record m { sessions = set n (record s { sent = s.sent ++ req ∷ [] }) m.sessions })

unfoldable pub send : ℕ → ManagerRes → Managers → Option Managers
send n req m = with_sent n req (m.sessions n) m
