-- ===== src/Streams/RevGrpcClient.antt =====
-- src/stream/rev_grpc_client.rs. An error of a read ends the use of the stream, so that its state is not kept.
use rog.Prelude.{Result, [], err, interrupted, none, ok, other, some, ℕ, ◌>>=◌, ◌∷◌}
use rog.Prelude.Word.{Bytes}
use rog.Prelude.Channel.{message, status, Streaming, Sender, send}
use rog.Proto.{RevStreamRes, RevStreamReq}
use rog.Streams.{StreamInfo, default}
use rog.Streams.Cached.{Cache, cleared, read_cached}

pub record ReadHalf : Type 0 where
  pub reader : Streaming RevStreamRes
  pub cached : Cache
  pub open cached use *

pub record WriteHalf : Type 0 where
  pub writer : Sender RevStreamReq

pub record RunStream : Type 0 where
  pub reader : Streaming RevStreamRes
  pub writer : Sender RevStreamReq
  pub cached : Cache
  pub open cached use *
  pub info : StreamInfo

-- The payload of the next message. An empty one is copied as no bytes.
unfoldable pub next_payload : Streaming RevStreamRes → Result (Bytes × Streaming RevStreamRes)
next_payload [] = err other "no more data"
next_payload (message data' ∷ s) = ok (data'.payload, s)
next_payload (status e ∷ s) = err interrupted e

unfoldable pub read_half : ℕ → ReadHalf → Result (Bytes × ReadHalf)
read_half n r = do
  (got, (cached, reader)) ← read_cached next_payload n r.cached r.reader
  ok (got, record r { reader = reader; cached = cached })

-- `RevStreamReq { payload: Some(..), ..Default::default() }`.
abbrev pub request : Bytes → RevStreamReq
request buf = record { auth = []; payload = some buf; conn_id = none }

unfoldable pub write_half : Bytes → WriteHalf → Result WriteHalf
write_half buf w = do
  writer ← send interrupted (request buf) w.writer
  ok (record w { writer = writer })

unfoldable pub new : Streaming RevStreamRes → Sender RevStreamReq → RunStream
new reader writer = record { reader = reader; writer = writer; cached = cleared; info = default }

unfoldable pub get_info : RunStream → StreamInfo
get_info r = r.info

unfoldable pub set_info : (StreamInfo → StreamInfo) → RunStream → RunStream
set_info f r = record r { info = f r.info }

-- The read half starts with an empty cache: what this stream had in its own is lost.
unfoldable pub split : RunStream → ReadHalf × WriteHalf
split r = (record { reader = r.reader; cached = cleared }, record { writer = r.writer })

unfoldable pub read : ℕ → RunStream → Result (Bytes × RunStream)
read n r = do
  (got, (cached, reader)) ← read_cached next_payload n r.cached r.reader
  ok (got, record r { reader = reader; cached = cached })

unfoldable pub write : Bytes → RunStream → Result RunStream
write buf r = do writer ← send interrupted (request buf) r.writer; ok (record r { writer = writer })
