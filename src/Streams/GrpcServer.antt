-- ===== src/Streams/GrpcServer.antt =====
-- src/stream/grpc_server.rs. An error of a read ends the use of the stream, so that its state is not kept.
use rog.Prelude.{
  Option, Result, [], err, false, interrupted, ok, other, some, unwrap, ℕ, ◌>>=◌, ◌∷◌,
}
use rog.Prelude.Word.{Bytes}
use rog.Prelude.Channel.{Event, message, status, Streaming, Sender, send}
use rog.Proto.{StreamReq, StreamRes, as_u16}
use rog.Address.{RunAddr}
use rog.Streams.{StreamInfo, default}
use rog.Streams.Cached.{Cache, cleared, read_cached}

pub record ReadHalf : Type 0 where
  pub reader : Streaming StreamReq
  pub cached : Cache
  pub open cached use *

pub record WriteHalf : Type 0 where
  pub writer : Sender (Event StreamRes)

pub record RunStream : Type 0 where
  pub reader : Streaming StreamReq
  pub writer : Sender (Event StreamRes)
  pub cached : Cache
  pub open cached use *
  pub info : StreamInfo

-- The payload of the next message. An empty one is copied as no bytes.
unfoldable pub next_payload : Streaming StreamReq → Result (Bytes × Streaming StreamReq)
next_payload [] = err other "no more data"
next_payload (message data' ∷ s) = do payload ← unwrap data'.payload; ok (payload, s)
next_payload (status e ∷ s) = err interrupted e

unfoldable pub read_half : ℕ → ReadHalf → Result (Bytes × ReadHalf)
read_half n r = do
  (got, (cached, reader)) ← read_cached next_payload n r.cached r.reader
  ok (got, record r { reader = reader; cached = cached })

unfoldable pub write_half : Bytes → WriteHalf → Result WriteHalf
write_half buf w = do
  writer ← send interrupted (message (record { payload = buf })) w.writer
  ok (record w { writer = writer })

unfoldable pub new : Streaming StreamReq → Sender (Event StreamRes) → RunStream
new reader writer = record { reader = reader; writer = writer; cached = cleared; info = default }

accept : Streaming StreamReq → RunStream → Result (Option (RunAddr × Bytes) × RunStream)
accept [] r = err interrupted "interrupted"
accept (message a ∷ s) r = do
  addr ← unwrap a.dst_addr
  port ← unwrap a.dst_port
  ok (
    some (record { addr = addr; port = as_u16 port; udp = false }, a.auth),
    record r { reader = s },
  )
accept (status e ∷ s) r = err interrupted e

-- The first message names the destination; a missing field panics.
unfoldable pub handshake : RunStream → Result (Option (RunAddr × Bytes) × RunStream)
unfolding accept
handshake r = accept r.reader r

unfoldable pub get_info : RunStream → StreamInfo
get_info r = r.info

unfoldable pub set_info : (StreamInfo → StreamInfo) → RunStream → RunStream
set_info f r = record r { info = f r.info }

-- The read half starts with an empty cache: what this stream had in its own is lost.
unfoldable pub split : RunStream → ReadHalf × WriteHalf
split r = (record { reader = r.reader; cached = cleared }, record { writer = r.writer })

unfoldable pub read : ℕ → RunStream → Result (Bytes × RunStream)
read n r = do
  (got, (cached, reader)) ← read_cached next_payload n r.cached r.reader
  ok (got, record r { reader = reader; cached = cached })

unfoldable pub write : Bytes → RunStream → Result RunStream
write buf r = do
  writer ← send interrupted (message (record { payload = buf })) r.writer
  ok (record r { writer = writer })
