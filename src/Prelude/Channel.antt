-- ===== src/Prelude/Channel.antt =====
-- The two ends of a gRPC stream: `tonic::Streaming`, read with `next`, and the `mpsc::Sender` that
-- feeds the other end.
use Prim.Native.String.{String}
use mathlib.Core.Bool.{Bool}
use mathlib.Core.List.{List, [], ◌∷◌, ◌++◌}
use rog.Prelude.Tests.{if◌then◌else◌}
use rog.Prelude.Io.{ErrorKind, Result, ok, err}

-- What `next` gives: a message, or a status whose text is kept.
pub data Event (M : Type 0) : Type 0 where
  message : M → Event M
  status : String → Event M

-- The events still to come; an empty list is the end of the stream.
abbrev pub Streaming : Type 0 → Type 0
Streaming M = List (Event M)

-- What was sent, and whether the receiver is gone. A full channel only makes the sender wait.
pub record Sender (M : Type 0) : Type 0 where
  pub sent : List M
  pub closed : Bool

-- `send`, with the kind that the caller gives to a failure.
unfoldable pub send : {M : Type 0} → ErrorKind → M → Sender M → Result (Sender M)
send k m w = if w.closed then err k "channel closed" else ok (record w { sent = w.sent ++ m ∷ [] })
