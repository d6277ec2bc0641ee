-- ===== src/Streams/PbTcpServer.antt =====
-- src/stream/pb_tcp_server.rs. An error of a read ends the use of the stream, so that its state is not kept.
-- A write takes as arguments what it draws from `OsRng`: the nonce, and the word of the frame.
use rog.Prelude.{
  Bool, Option, Reader, Result, Writer, [], false, if◌then◌else◌, not, ok, ok_or, other, some, ℕ,
  ◌==◌, ◌>>=◌, ◌∷◌,
}
use rog.Prelude.Word.{Bytes}
use rog.Frame.{read_msg, write_frame}
use rog.Crypto.{Cipher, encrypt_bytes, decrypt_bytes, decrypt_field}
use rog.Proto.{unwrap_or_default, as_u16}
use rog.Proto.Codec.{Codec}
use rog.Address.{RunAddr}
use rog.Streams.{StreamInfo, default}
use rog.Streams.Cached.{Cache, cleared, read_cached}

pub record ReadHalf : Type 0 where
  pub reader : Reader
  pub cached : Cache
  pub open cached use *
  pub pw : Bytes
  pub encrypt : Bool

pub record WriteHalf : Type 0 where
  pub writer : Writer
  pub pw : Bytes
  pub encrypt : Bool

pub record RunStream : Type 0 where
  pub reader : Reader
  pub writer : Writer
  pub cached : Cache
  pub open cached use *
  pub info : StreamInfo
  pub pw : Bytes
  pub encrypt : Bool

unfoldable pub new : Reader → Writer → RunStream
new reader writer = record {
  reader = reader;
  writer = writer;
  cached = cleared;
  info = default;
  pw = [];
  encrypt = false;
}

module _ (c : Cipher) (codec : Codec) where
  -- An empty payload is not decrypted.
  abbrev pub decrypted : Bytes → Bool → Bytes → Result Bytes
  decrypted pw encrypt [] = ok []
  decrypted pw encrypt (b ∷ bs) = if encrypt then decrypt_bytes c (b ∷ bs) pw else ok (b ∷ bs)

  unfoldable pub next_payload : Bytes → Bool → Reader → Result (Bytes × Reader)
  next_payload pw encrypt r = do
    (msg, r) ← read_msg codec.decode_req r
    payload ← decrypted pw encrypt (unwrap_or_default msg.payload)
    ok (payload, r)

  -- `read_payload`: what was read, the cache and the reader.
  unfoldable pub read_payload :
      Reader → Cache → ℕ → Bytes → Bool → Result (Bytes × (Cache × Reader))
  read_payload reader cached n pw encrypt = read_cached (next_payload pw encrypt) n cached reader

  unfoldable pub read_half : ℕ → ReadHalf → Result (Bytes × ReadHalf)
  read_half n r = do
    (got, (cached, reader)) ← read_payload r.reader r.cached n r.pw r.encrypt
    ok (got, record r { reader = reader; cached = cached })

  unfoldable pub write_half : Bytes → ℕ → Bytes → WriteHalf → Result WriteHalf
  write_half nonce word buf w = do
    payload ← (if w.encrypt then encrypt_bytes c nonce buf w.pw else ok buf)
    writer ← write_frame word (codec.encode_res (record { payload = payload })) w.writer
    ok (record w { writer = writer })

  -- The first message names the destination. The stream keeps the password, and encrypts unless the
  -- port is 443.
  unfoldable pub handshake : Bytes → RunStream → Result (Option (RunAddr × Bytes) × RunStream)
  handshake pw r = do
    (req, reader) ← read_msg codec.decode_req r.reader
    auth ← decrypt_field c req.auth pw
    enc ← ok_or req.dst_addr other "missing dst_addr"
    dst_addr ← decrypt_field c enc pw
    dst_port ← ok_or req.dst_port other "missing dst_port"
    ok (
      some (record { addr = dst_addr; port = as_u16 dst_port; udp = false }, auth),
      record r { reader = reader; pw = pw; encrypt = not (dst_port == 443) },
    )

  unfoldable pub read : ℕ → RunStream → Result (Bytes × RunStream)
  read n r = do
    (got, (cached, reader)) ← read_payload r.reader r.cached n r.pw r.encrypt
    ok (got, record r { reader = reader; cached = cached })

  unfoldable pub write : Bytes → ℕ → Bytes → RunStream → Result RunStream
  write nonce word buf r = do
    payload ← (if r.encrypt then encrypt_bytes c nonce buf r.pw else ok buf)
    writer ← write_frame word (codec.encode_res (record { payload = payload })) r.writer
    ok (record r { writer = writer })

unfoldable pub get_info : RunStream → StreamInfo
get_info r = r.info

unfoldable pub set_info : (StreamInfo → StreamInfo) → RunStream → RunStream
set_info f r = record r { info = f r.info }

-- The read half starts with an empty cache: what this stream had in its own is lost.
unfoldable pub split : RunStream → ReadHalf × WriteHalf
split r = (
  record { reader = r.reader; cached = cleared; pw = r.pw; encrypt = r.encrypt },
  record { writer = r.writer; pw = r.pw; encrypt = r.encrypt },
)
