-- ===== src/UdpStreams/PbTcp.antt =====
-- src/stream/pb_tcp_udp_client.rs and pb_tcp_udp_server.rs. A write takes as arguments what it draws
-- from `OsRng`: a nonce for each field that it encrypts, and the word of the frame.
pub mod RoundTrip
use rog.Prelude.{
  ℕ, Option, none, some, Result, ok, err, other, not, if◌then◌else◌, bytes_eq, ◌>>=◌, Reader,
  Writer,
}
use rog.Prelude.Word.{Bytes}
use rog.Frame.{read_msg, write_frame}
use rog.Crypto.{Cipher, encrypt_bytes, decrypt_bytes, encrypt_field, decrypt_field}
use rog.Proto.{
  UdpReq, UdpRes, udp_req_try_into, udp_req_from_packet, udp_res_try_into, udp_res_try_from,
}
use rog.Proto.Codec.{Codec}
use rog.UdpPacket.{UdpPacket}

pub record ClientWriter : Type 0 where
  pub writer : Writer
  pub auth : Bytes
  pub pw : Bytes

pub record ClientReader : Type 0 where
  pub reader : Reader
  pub pw : Bytes

pub record ServerReader : Type 0 where
  pub reader : Reader
  pub auth : Bytes
  pub pw : Bytes

pub record ServerWriter : Type 0 where
  pub writer : Writer
  pub pw : Bytes

pub record Nonces : Type 0 where
  pub for_auth : Bytes
  pub for_dst : Bytes
  pub for_src : Bytes
  pub for_payload : Bytes

-- `if let Some(ref v) = field { field = Some(f(v)?) }`.
abbrev pub each : (Bytes → Result Bytes) → Option Bytes → Result (Option Bytes)
each f none = ok none
each f (some v) = f v >>= λ v. ok (some v)

module _ (c : Cipher) (codec : Codec) where
  unfoldable pub client_write : Nonces → ℕ → UdpPacket → ClientWriter → Result ClientWriter
  client_write n word packet w = do
    let req = udp_req_from_packet packet w.auth
    auth ← encrypt_field c n.for_auth req.auth w.pw
    dst_addr ← each (λ v. encrypt_field c n.for_dst v w.pw) req.dst_addr
    src_addr ← each (λ v. encrypt_field c n.for_src v w.pw) req.src_addr
    payload ← each (λ v. encrypt_bytes c n.for_payload v w.pw) req.payload
    writer ←
        write_frame word
          (codec.encode_udp_req (record req {
            auth = auth;
            dst_addr = dst_addr;
            src_addr = src_addr;
            payload = payload;
          }))
          w.writer
    ok (record w { writer = writer })

  unfoldable pub client_read : ClientReader → Result (UdpPacket × ClientReader)
  client_read r = do
    (res, reader) ← read_msg codec.decode_udp_res r.reader
    dst_addr ← each (λ enc. decrypt_field c enc r.pw) res.dst_addr
    src_addr ← each (λ enc. decrypt_field c enc r.pw) res.src_addr
    payload ← decrypt_bytes c res.payload r.pw
    packet ←
        udp_res_try_into
          (record res { dst_addr = dst_addr; src_addr = src_addr; payload = payload })
    ok (packet, record r { reader = reader })

  unfoldable pub server_read : ServerReader → Result (UdpPacket × ServerReader)
  server_read r = do
    (req, reader) ← read_msg codec.decode_udp_req r.reader
    decrypted_auth ← decrypt_field c req.auth r.pw
    if not (bytes_eq decrypted_auth r.auth) then err other "pb tcp udp auth mismatch" else do
      dst_addr ← each (λ enc. decrypt_field c enc r.pw) req.dst_addr
      src_addr ← each (λ enc. decrypt_field c enc r.pw) req.src_addr
      payload ← each (λ bs. decrypt_bytes c bs r.pw) req.payload
      packet ←
          udp_req_try_into
            (record req { dst_addr = dst_addr; src_addr = src_addr; payload = payload })
      ok (packet, record r { reader = reader })

  unfoldable pub server_write : Nonces → ℕ → UdpPacket → ServerWriter → Result ServerWriter
  server_write n word packet w = do
    let res = udp_res_try_from packet
    dst_addr ← each (λ v. encrypt_field c n.for_dst v w.pw) res.dst_addr
    src_addr ← each (λ v. encrypt_field c n.for_src v w.pw) res.src_addr
    payload ← encrypt_bytes c n.for_payload res.payload w.pw
    writer ←
        write_frame word
          (codec.encode_udp_res
            (record res { dst_addr = dst_addr; src_addr = src_addr; payload = payload }))
          w.writer
    ok (record w { writer = writer })
