-- ===== src/Streams/PbTcpClient.antt =====
-- src/stream/pb_tcp_client.rs. An error of a read ends the use of the stream, so that its state is not kept.
-- A write takes as arguments what it draws from `OsRng`: the nonce, and the word of the frame.
use rog.Prelude.{Bool, Reader, Result, Writer, [], if◌then◌else◌, none, ok, some, ℕ, ◌>>=◌, ◌∷◌}
use rog.Prelude.Word.{Bytes}
use rog.Frame.{read_msg, write_frame}
use rog.Crypto.{Cipher, encrypt_bytes, decrypt_bytes}
use rog.Proto.{StreamReq}
use rog.Proto.Codec.{Codec}
use rog.Streams.{StreamInfo, default}
use rog.Streams.Cached.{Cache, cleared, read_cached}

pub record ReadHalf : Type 0 where
  pub reader : Reader
  pub cached : Cache
  pub open cached use *
  pub pw : Bytes
  pub encrypt : Bool

pub record WriteHalf : Type 0 where
  pub writer : Writer
  pub pw : Bytes
  pub encrypt : Bool

pub record RunStream : Type 0 where
  pub reader : Reader
  pub writer : Writer
  pub cached : Cache
  pub open cached use *
  pub info : StreamInfo
  pub pw : Bytes
  pub encrypt : Bool

unfoldable pub new : Reader → Writer → Bytes → Bool → RunStream
new reader writer pw encrypt = record {
  reader = reader;
  writer = writer;
  cached = cleared;
  info = default;
  pw = pw;
  encrypt = encrypt;
}

-- `StreamReq { payload: Some(..), ..Default::default() }`.
abbrev pub request : Bytes → StreamReq
request payload = record { auth = []; payload = some payload; dst_addr = none; dst_port = none }

module _ (c : Cipher) (codec : Codec) where
  -- An empty payload is not decrypted.
  abbrev pub decrypted : Bytes → Bool → Bytes → Result Bytes
  decrypted pw encrypt [] = ok []
  decrypted pw encrypt (b ∷ bs) = if encrypt then decrypt_bytes c (b ∷ bs) pw else ok (b ∷ bs)

  unfoldable pub next_payload : Bytes → Bool → Reader → Result (Bytes × Reader)
  next_payload pw encrypt r = do
    (msg, r) ← read_msg codec.decode_res r
    payload ← decrypted pw encrypt (msg.payload)
    ok (payload, r)

  -- `read_payload`: what was read, the cache and the reader.
  unfoldable pub read_payload :
      Reader → Cache → ℕ → Bytes → Bool → Result (Bytes × (Cache × Reader))
  read_payload reader cached n pw encrypt = read_cached (next_payload pw encrypt) n cached reader

  unfoldable pub read_half : ℕ → ReadHalf → Result (Bytes × ReadHalf)
  read_half n r = do
    (got, (cached, reader)) ← read_payload r.reader r.cached n r.pw r.encrypt
    ok (got, record r { reader = reader; cached = cached })

  unfoldable pub write_half : Bytes → ℕ → Bytes → WriteHalf → Result WriteHalf
  write_half nonce word buf w = do
    payload ← (if w.encrypt then encrypt_bytes c nonce buf w.pw else ok buf)
    writer ← write_frame word (codec.encode_req (request payload)) w.writer
    ok (record w { writer = writer })

  unfoldable pub read : ℕ → RunStream → Result (Bytes × RunStream)
  read n r = do
    (got, (cached, reader)) ← read_payload r.reader r.cached n r.pw r.encrypt
    ok (got, record r { reader = reader; cached = cached })

  unfoldable pub write : Bytes → ℕ → Bytes → RunStream → Result RunStream
  write nonce word buf r = do
    payload ← (if r.encrypt then encrypt_bytes c nonce buf r.pw else ok buf)
    writer ← write_frame word (codec.encode_req (request payload)) r.writer
    ok (record r { writer = writer })

unfoldable pub get_info : RunStream → StreamInfo
get_info r = r.info

unfoldable pub set_info : (StreamInfo → StreamInfo) → RunStream → RunStream
set_info f r = record r { info = f r.info }

-- The read half starts with an empty cache: what this stream had in its own is lost.
unfoldable pub split : RunStream → ReadHalf × WriteHalf
split r = (
  record { reader = r.reader; cached = cleared; pw = r.pw; encrypt = r.encrypt },
  record { writer = r.writer; pw = r.pw; encrypt = r.encrypt },
)
