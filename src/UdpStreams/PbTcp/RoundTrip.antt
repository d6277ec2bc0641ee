-- ===== src/UdpStreams/PbTcp/RoundTrip.antt =====
-- The two ends of src/stream/pb_tcp_udp_*.rs.
use rog.Prelude.{
  ℕ, ◌<◌, ◌≡◌, ◌≢◌, ap, ◌∙◌, true, bytes_eq_refl, bytes_eq_ne, Option, some, ok, err, other, ◌>>=◌,
  >>=-eq-ok, Result, length,
}
use rog.Prelude.Word.{Bytes}
use rog.Frame.{u64_mod, write_frame}
use rog.Frame.Message.{IsShort, Carries, read_msg-write_frame}
use rog.Text.{is_utf8}
use rog.Crypto.{Cipher, nonce_len, encrypt_bytes, encrypt_field}
use rog.Crypto.RoundTrip.{IsCipher, decrypt_bytes-encrypt_bytes, decrypt_field-encrypt_field}
use rog.Proto.{
  UdpReq, UdpRes, udp_req_from_packet, udp_res_try_from, udp_req_try_into, udp_res_try_into,
}
use rog.Proto.Codec.{Codec, IsCodec}
use rog.Proto.RoundTrip.{udp_req-round, udp_res-round}
use rog.UdpPacket.{UdpPacket}
use rog.UdpStreams.Sequence.{HasPorts}
use rog.UdpStreams.PbTcp.{
  ClientWriter, ClientReader, ServerReader, ServerWriter, Nonces, each, client_write, client_read,
  server_read, server_write,
}

-- Nonces as `generate_nonce` gives them.
abbrev pub AreNonces : Nonces → Type 0
AreNonces n =
    (length n.for_auth ≡ nonce_len)
    × (length n.for_dst ≡ nonce_len)
    × (length n.for_src ≡ nonce_len)
    × (length n.for_payload ≡ nonce_len)

abbrev pub HasText : UdpPacket → Type 0
HasText p = (is_utf8 p.dst_addr ≡ true) × (is_utf8 p.src_addr ≡ true)

each->>=-eq-ok :
    {B : Type 0}
    → (f : Bytes → Result Bytes) (v : Bytes) (k : Option Bytes → Result B) {b : B}
    → (each f (some v) >>= k) ≡ ok b
    → (v' : Bytes) × (f v ≡ ok v') × (k (some v') ≡ ok b)
each->>=-eq-ok f v k h =
    let (o, e, h') = >>=-eq-ok (f v >>= λ v. ok (some v)) k h in
    let (v', e', some_is) = >>=-eq-ok (f v) _ e in
    let is_some : o ≡ some v' = cc in (v', e', rw is_some at h')

ok-inj : {A : Type 0} → (a b : A) → ok a ≡ ok b → a ≡ b
ok-inj a b h = cc

module _ (c : Cipher) (codec : Codec) (n : Nonces) (word : ℕ) (p : UdpPacket) where
  abbrev sealed_req : Bytes → Bytes → Bytes → Bytes → UdpReq
  sealed_req auth dst src payload = record {
    auth = auth;
    payload = some payload;
    dst_addr = some dst;
    dst_port = some p.dst_port;
    src_addr = some src;
    src_port = some p.src_port;
  }

  abbrev sealed_res : Bytes → Bytes → Bytes → UdpRes
  sealed_res dst src payload = record {
    payload = payload;
    dst_addr = some dst;
    dst_port = some p.dst_port;
    src_addr = some src;
    src_port = some p.src_port;
  }

  -- What a successful write of the client encrypted, and the frame that it wrote.
  record SealedReq (w w' : ClientWriter) : Type 0 where
    auth : Bytes
    dst : Bytes
    src : Bytes
    payload : Bytes
    auth_is : encrypt_field c n.for_auth w.auth w.pw ≡ ok auth
    dst_is : encrypt_field c n.for_dst p.dst_addr w.pw ≡ ok dst
    src_is : encrypt_field c n.for_src p.src_addr w.pw ≡ ok src
    payload_is : encrypt_bytes c n.for_payload p.payload w.pw ≡ ok payload
    frame_is :
        write_frame word (codec.encode_udp_req (sealed_req auth dst src payload)) w.writer
        ≡ ok w'.writer

  record SealedRes (w w' : ServerWriter) : Type 0 where
    dst : Bytes
    src : Bytes
    payload : Bytes
    dst_is : encrypt_field c n.for_dst p.dst_addr w.pw ≡ ok dst
    src_is : encrypt_field c n.for_src p.src_addr w.pw ≡ ok src
    payload_is : encrypt_bytes c n.for_payload p.payload w.pw ≡ ok payload
    frame_is :
        write_frame word (codec.encode_udp_res (sealed_res dst src payload)) w.writer ≡ ok w'.writer

  client_write-Sealed :
      (w w' : ClientWriter) → client_write c codec n word p w ≡ ok w' → SealedReq w w'
  unfolding client_write udp_req_from_packet
  client_write-Sealed w w' h =
      let (a, e₁, h₁) = >>=-eq-ok (encrypt_field c n.for_auth w.auth w.pw) _ h in
      let (d, e₂, h₂) = each->>=-eq-ok (λ v. encrypt_field c n.for_dst v w.pw) p.dst_addr _ h₁ in
      let (s, e₃, h₃) = each->>=-eq-ok (λ v. encrypt_field c n.for_src v w.pw) p.src_addr _ h₂ in
      let (q, e₄, h₄) = each->>=-eq-ok (λ v. encrypt_bytes c n.for_payload v w.pw) p.payload _ h₃ in
      let (wr, e₅, h₅) =
        >>=-eq-ok (write_frame word (codec.encode_udp_req (sealed_req a d s q)) w.writer) _ h₄ in
      record {
        auth = a;
        dst = d;
        src = s;
        payload = q;
        auth_is = e₁;
        dst_is = e₂;
        src_is = e₃;
        payload_is = e₄;
        frame_is =
            e₅ ∙ ap (λ (w : ClientWriter). ok w.writer) (ok-inj (record w { writer = wr }) w' h₅);
      }

  server_write-Sealed :
      (w w' : ServerWriter) → server_write c codec n word p w ≡ ok w' → SealedRes w w'
  unfolding server_write udp_res_try_from
  server_write-Sealed w w' h =
      let (d, e₂, h₂) = each->>=-eq-ok (λ v. encrypt_field c n.for_dst v w.pw) p.dst_addr _ h in
      let (s, e₃, h₃) = each->>=-eq-ok (λ v. encrypt_field c n.for_src v w.pw) p.src_addr _ h₂ in
      let (q, e₄, h₄) = >>=-eq-ok (encrypt_bytes c n.for_payload p.payload w.pw) _ h₃ in
      let (wr, e₅, h₅) =
        >>=-eq-ok (write_frame word (codec.encode_udp_res (sealed_res d s q)) w.writer) _ h₄ in
      record {
        dst = d;
        src = s;
        payload = q;
        dst_is = e₂;
        src_is = e₃;
        payload_is = e₄;
        frame_is =
            e₅ ∙ ap (λ (w : ServerWriter). ok w.writer) (ok-inj (record w { writer = wr }) w' h₅);
      }

module _ (c : Cipher) (laws : IsCipher c) (codec : Codec) (round : IsCodec codec) where
  -- A packet with UTF-8 addresses and 16-bit ports, written by the client with nonces of 12 bytes, a
  -- 64-bit random word and a secret in UTF-8, in a frame of at most 16 MiB. A server with the same
  -- password reads that packet if it has the same secret, and is left behind the frame; if its
  -- secret differs, it refuses the packet.
  pub pb_udp_upload :
      (n : Nonces) (word : ℕ) (p : UdpPacket) (rest : Bytes) (w w' : ClientWriter)
      (r : ServerReader)
      → AreNonces n
      → word < u64_mod
      → HasPorts p
      → HasText p
      → is_utf8 w.auth ≡ true
      → w.pw ≡ r.pw
      → client_write c codec n word p w ≡ ok w'
      → IsShort w.writer w'.writer
      → Carries w.writer w'.writer rest r.reader
      → (w.auth ≡ r.auth
          → server_read c codec r ≡ ok (p, record r { reader = record r.reader { bytes = rest } }))
        × (w.auth ≢ r.auth → server_read c codec r ≡ err other "pb tcp udp auth mismatch")
  unfolding server_read
  pb_udp_upload n word p rest w w' r (na, nd, ns, np) hw ports (td, ts) ta pw h short b =
      let s = client_write-Sealed c codec n word p w w' h in
      let msg =
        read_msg-write_frame codec.decode_udp_req
          (sealed_req c codec n word p s.auth s.dst s.src s.payload) word
          (codec.encode_udp_req (sealed_req c codec n word p s.auth s.dst s.src s.payload)) rest
          w.writer w'.writer r.reader (round.udp_req _) hw s.frame_is short b in
      let a = decrypt_field-encrypt_field c laws n.for_auth w.auth w.pw s.auth na ta s.auth_is in
      let d = decrypt_field-encrypt_field c laws n.for_dst p.dst_addr w.pw s.dst nd td s.dst_is in
      let f = decrypt_field-encrypt_field c laws n.for_src p.src_addr w.pw s.src ns ts s.src_is in
      let q =
        decrypt_bytes-encrypt_bytes c laws n.for_payload p.payload w.pw s.payload np s.payload_is in
      let open' : udp_req_try_into
            (sealed_req c codec n word p s.auth p.dst_addr p.src_addr p.payload)
          ≡ ok p =
        unfold udp_req_from_packet in udp_req-round p ports.0 ports.1 s.auth in
      (
        (λ same. rw (msg, ← pw, a, same, bytes_eq_refl r.auth, d, f, q, open')),
        (λ ne. rw (msg, ← pw, a, bytes_eq_ne w.auth r.auth ne)),
      )

  -- The same for what the server writes and the client reads, which carries no secret.
  pub pb_udp_download :
      (n : Nonces) (word : ℕ) (p : UdpPacket) (rest : Bytes) (w w' : ServerWriter)
      (r : ClientReader)
      → AreNonces n
      → word < u64_mod
      → HasPorts p
      → HasText p
      → w.pw ≡ r.pw
      → server_write c codec n word p w ≡ ok w'
      → IsShort w.writer w'.writer
      → Carries w.writer w'.writer rest r.reader
      → client_read c codec r ≡ ok (p, record r { reader = record r.reader { bytes = rest } })
  unfolding client_read
  pb_udp_download n word p rest w w' r (_, nd, ns, np) hw ports (td, ts) pw h short b =
      let s = server_write-Sealed c codec n word p w w' h in
      let msg =
        read_msg-write_frame codec.decode_udp_res
          (sealed_res c codec n word p s.dst s.src s.payload) word
          (codec.encode_udp_res (sealed_res c codec n word p s.dst s.src s.payload)) rest w.writer
          w'.writer r.reader (round.udp_res _) hw s.frame_is short b in
      let d = decrypt_field-encrypt_field c laws n.for_dst p.dst_addr w.pw s.dst nd td s.dst_is in
      let f = decrypt_field-encrypt_field c laws n.for_src p.src_addr w.pw s.src ns ts s.src_is in
      let q =
        decrypt_bytes-encrypt_bytes c laws n.for_payload p.payload w.pw s.payload np s.payload_is in
      let open' : udp_res_try_into (sealed_res c codec n word p p.dst_addr p.src_addr p.payload)
          ≡ ok p =
        unfold udp_res_try_from in udp_res-round p ports.0 ports.1 in
      rw (msg, ← pw, d, f, q, open')
