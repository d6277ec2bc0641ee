-- ===== src/Streams/GrpcClient.antt =====
-- src/stream/grpc_client.rs. An error of a read ends the use of the stream, so that its state is not kept.
use rog.Prelude.{Result, [], err, interrupted, none, ok, other, some, ℕ, ◌>>=◌, ◌∷◌}
use rog.Prelude.Word.{Bytes}
use rog.Prelude.Channel.{message, status, Streaming, Sender, send}
use rog.Proto.{StreamRes, StreamReq}
use rog.Streams.{StreamInfo, default}
use rog.Streams.Cached.{Cache, cleared, read_cached}

pub record ReadHalf : Type 0 where
  pub reader : Streaming StreamRes
  pub cached : Cache
  pub open cached use *

pub record WriteHalf : Type 0 where
  pub writer : Sender StreamReq

pub record RunStream : Type 0 where
  pub reader : Streaming StreamRes
  pub writer : Sender StreamReq
  pub cached : Cache
  pub open cached use *
  pub info : StreamInfo

-- The payload of the next message. An empty one is copied as no bytes.
unfoldable pub next_payload : Streaming StreamRes → Result (Bytes × Streaming StreamRes)
next_payload [] = err other "no more data"
next_payload (message data' ∷ s) = ok (data'.payload, s)
next_payload (status e ∷ s) = err interrupted e

unfoldable pub read_half : ℕ → ReadHalf → Result (Bytes × ReadHalf)
read_half n r = do
  (got, (cached, reader)) ← read_cached next_payload n r.cached r.reader
  ok (got, record r { reader = reader; cached = cached })

-- `StreamReq { payload: Some(..), ..Default::default() }`.
abbrev pub request : Bytes → StreamReq
request buf = record { auth = []; payload = some buf; dst_addr = none; dst_port = none }

unfoldable pub write_half : Bytes → WriteHalf → Result WriteHalf
write_half buf w = do
  writer ← send interrupted (request buf) w.writer
  ok (record w { writer = writer })

unfoldable pub new : Streaming StreamRes → Sender StreamReq → RunStream
new reader writer = record { reader = reader; writer = writer; cached = cleared; info = default }

unfoldable pub get_info : RunStream → StreamInfo
get_info r = r.info

unfoldable pub set_info : (StreamInfo → StreamInfo) → RunStream → RunStream
set_info f r = record r { info = f r.info }

-- The read half starts with an empty cache: what this stream had in its own is lost.
unfoldable pub split : RunStream → ReadHalf × WriteHalf
split r = (record { reader = r.reader; cached = cleared }, record { writer = r.writer })

unfoldable pub read : ℕ → RunStream → Result (Bytes × RunStream)
read n r = do
  (got, (cached, reader)) ← read_cached next_payload n r.cached r.reader
  ok (got, record r { reader = reader; cached = cached })

unfoldable pub write : Bytes → RunStream → Result RunStream
write buf r = do writer ← send interrupted (request buf) r.writer; ok (record r { writer = writer })
