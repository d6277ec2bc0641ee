-- ===== src/Streams/PbTcp/Upload.antt =====
-- Writes of src/stream/pb_tcp_client.rs, and reads of pb_tcp_server.rs.
use rog.Prelude.{
  ℕ, ◌≡◌, refl, sym, ap, ◌∙◌, Bool, true, false, if◌then◌else◌, List, [], ◌∷◌, ◌++◌, append-nil,
  append_assoc, ok, >>=-eq-ok, Reader, length, drop, drop-append, arith,
}
use rog.Prelude.Word.{Bytes}
use rog.Frame.{write_frame}
use rog.Frame.RoundTrip.{frame, write_frame-written}
use rog.Frame.Message.{IsShort, read_msg-write_frame, read_msg-closed}
use rog.RunStream.{Stream, read, read_exact}
use rog.RunStream.Simulation.{Same, read_exact-Same}
use rog.Crypto.{Cipher, nonce_len, encrypt_bytes}
use rog.Crypto.RoundTrip.{IsCipher, decrypt_bytes-encrypt_bytes}
use rog.Proto.Codec.{Codec, IsCodec}
use rog.Streams.Cached.{cleared}
use rog.Streams.Refines.{Yields, Related, stream_read-Same}
use rog.Streams.PbTcpServer
use rog.Streams.PbTcpClient
use rog.Streams.PbTcp.{Write, IsWrite, AreWrites, pieces, ok-inj, empty_is_short}

-- PbTcpClient to PbTcpServer.
module _ (c : Cipher) (codec : Codec) where
  -- Every write succeeded, and wrote a frame of at most 16 MiB.
  abbrev pub PbUploadSent : List Write → PbTcpClient.WriteHalf → PbTcpClient.WriteHalf → Type 0
  PbUploadSent [] w w' = w ≡ w'
  PbUploadSent (p ∷ ps) w w' =
      (w₁ : PbTcpClient.WriteHalf) × (PbTcpClient.write_half c codec p.nonce p.word p.buf w ≡ ok w₁)
      × (IsShort w.writer w₁.writer)
      × (PbUploadSent ps w₁ w')

module _ (c : Cipher) (laws : IsCipher c) (codec : Codec) (round : IsCodec codec) where
  pb_upload_decrypted :
      (e : Bool) (nonce buf pw payload : Bytes)
      → length nonce ≡ nonce_len
      → (if e then encrypt_bytes c nonce buf pw else ok buf) ≡ ok payload
      → PbTcpServer.decrypted c codec pw e payload ≡ ok buf
  pb_upload_decrypted true nonce buf pw [] len h =
      absurd (empty_is_short c pw buf (decrypt_bytes-encrypt_bytes c laws nonce buf pw [] len h))
  pb_upload_decrypted true nonce buf pw (b ∷ bs) len h =
      decrypt_bytes-encrypt_bytes c laws nonce buf pw (b ∷ bs) len h
  pb_upload_decrypted false nonce buf pw [] len h = cc
  pb_upload_decrypted false nonce buf pw (b ∷ bs) len h = cc

  -- One write: a frame, whose message the reader decrypts to what was written.
  pb_upload_next :
      (p : Write) (w w' : PbTcpClient.WriteHalf)
      → IsWrite p
      → PbTcpClient.write_half c codec p.nonce p.word p.buf w ≡ ok w'
      → IsShort w.writer w'.writer
      → (w'.pw ≡ w.pw)
        × (w'.encrypt ≡ w.encrypt)
        × ((written : Bytes) × (w'.writer.written ≡ w.writer.written ++ written)
            × ((rest : Bytes) (r : Reader)
                → r.bytes ≡ written ++ rest
                → PbTcpServer.next_payload c codec w.pw w.encrypt r
                  ≡ ok (p.buf, record r { bytes = rest })))
  unfolding PbTcpClient.write_half PbTcpServer.next_payload
  pb_upload_next p w w' (len, hw) h short =
      let (payload, e, h₁) =
        >>=-eq-ok (if w.encrypt then encrypt_bytes c p.nonce p.buf w.pw else ok p.buf) _ h in
      let (wr, e₁, h₂) =
        >>=-eq-ok (write_frame p.word (codec.encode_req (PbTcpClient.request payload)) w.writer) _
          h₁ in
      let is : record w { writer = wr } ≡ w' = ok-inj _ _ h₂ in
      let done : write_frame p.word (codec.encode_req (PbTcpClient.request payload)) w.writer
          ≡ ok w'.writer =
        e₁ ∙ ap (λ (w : PbTcpClient.WriteHalf). ok w.writer) is in
      let written =
        write_frame-written p.word (codec.encode_req (PbTcpClient.request payload)) w.writer done in
      (
        ap (λ (w : PbTcpClient.WriteHalf). w.pw) (sym is),
        ap (λ (w : PbTcpClient.WriteHalf). w.encrypt) (sym is),
        (
          frame p.word (codec.encode_req (PbTcpClient.request payload)),
          written,
          λ rest r b.
              let msg =
                read_msg-write_frame codec.decode_req (PbTcpClient.request payload) p.word
                  (codec.encode_req (PbTcpClient.request payload)) rest w.writer w'.writer r
                  (round.stream_req _) hw done short
                  (b
                    ∙ rw (
                      written,
                      drop-append w.writer.written
                          (frame p.word (codec.encode_req (PbTcpClient.request payload))),
                    )) in
              rw (msg, pb_upload_decrypted w.encrypt p.nonce p.buf w.pw payload len e),
        ),
      )

  pb_upload_Yields :
      (ps : List Write) (w w' : PbTcpClient.WriteHalf)
      → AreWrites ps
      → PbUploadSent c codec ps w w'
      → (written : Bytes) × (w'.writer.written ≡ w.writer.written ++ written)
        × ((r : Reader)
            → r.bytes ≡ written
            → Yields
                (PbTcpServer.next_payload c codec w.pw w.encrypt)
                r
                (pieces r.last_kind r.last_message ps))
  unfolding PbTcpServer.next_payload
  pb_upload_Yields [] w w' _ sent =
      ([], rw (← sent, append-nil) refl, λ r b. rw (read_msg-closed codec.decode_req r b))
  pb_upload_Yields (p ∷ ps) w w' (hp, hs) (w₁, e, short, sent) =
      let (pw, encrypt, (x, x_is, gives)) = pb_upload_next p w w₁ hp e short in
      let (xs, xs_is, yields) = pb_upload_Yields ps w₁ w' hs sent in
      (
        x ++ xs,
        xs_is ∙ rw x_is (append_assoc w.writer.written x xs),
        λ r b. (
          record r { bytes = xs },
          gives xs r b,
          rw (pw, encrypt) at (yields (record r { bytes = xs }) refl),
        ),
      )

-- A connection that gives what a stream will read.
abbrev PbUploadRel : (c : Cipher) (codec : Codec) → Stream → PbTcpServer.RunStream → Type 0
PbUploadRel c codec t r =
    Related (PbTcpServer.next_payload c codec r.pw r.encrypt) t (r.cached, r.reader)

abbrev PbUploadHalfRel : (c : Cipher) (codec : Codec) → Stream → PbTcpServer.ReadHalf → Type 0
PbUploadHalfRel c codec t r =
    Related (PbTcpServer.next_payload c codec r.pw r.encrypt) t (r.cached, r.reader)

pb_upload_read-Same :
    (c : Cipher) (codec : Codec) (n : ℕ) (t : Stream) (r : PbTcpServer.RunStream)
    → PbUploadRel c codec t r
    → Same (PbUploadRel c codec) (read n t) (PbTcpServer.read c codec n r)
unfolding PbTcpServer.read PbTcpServer.read_payload
pb_upload_read-Same c codec n t r h =
    stream_read-Same (PbTcpServer.next_payload c codec r.pw r.encrypt) {R = PbTcpServer.RunStream}
      (PbUploadRel c codec) (λ p. record r { reader = p.1; cached = p.0 }) n t (r.cached, r.reader)
      (λ t p h. h) h

pb_upload_read_half-Same :
    (c : Cipher) (codec : Codec) (n : ℕ) (t : Stream) (r : PbTcpServer.ReadHalf)
    → PbUploadHalfRel c codec t r
    → Same (PbUploadHalfRel c codec) (read n t) (PbTcpServer.read_half c codec n r)
unfolding PbTcpServer.read_half PbTcpServer.read_payload
pb_upload_read_half-Same c codec n t r h =
    stream_read-Same (PbTcpServer.next_payload c codec r.pw r.encrypt) {R = PbTcpServer.ReadHalf}
      (PbUploadHalfRel c codec) (λ p. record r { reader = p.1; cached = p.0 }) n t
      (r.cached, r.reader) (λ t p h. h) h

-- Successful writes of the client through the write half, each with a nonce of 12 bytes, a 64-bit
-- random word and a frame of at most 16 MiB. On the other end, with the same password, the same
-- choice of encryption and an empty cache, a read of `n` bytes through the read half, and `read_exact`
-- on the whole stream, give what they give on a connection where the written pieces arrive one by one
-- and that then ends or fails as the TCP connection does; and what is left corresponds again, so that
-- this holds of all later reads.
pub pb_upload :
    (c : Cipher) (codec : Codec) (ps : List Write) (n : ℕ) (w w' : PbTcpClient.WriteHalf)
    (h : PbTcpServer.ReadHalf) (r : PbTcpServer.RunStream)
    → IsCipher c
    → IsCodec codec
    → AreWrites ps
    → PbUploadSent c codec ps w w'
    → (h.pw ≡ w.pw) × (h.encrypt ≡ w.encrypt) × (r.pw ≡ w.pw) × (r.encrypt ≡ w.encrypt)
    → (h.cached ≡ cleared) × (r.cached ≡ cleared)
    → (h.reader.bytes ≡ drop (length w.writer.written) w'.writer.written) × (r.reader ≡ h.reader)
    → (Same
        (PbUploadHalfRel c codec)
        (read n (pieces h.reader.last_kind h.reader.last_message ps))
        (PbTcpServer.read_half c codec n h))
      × (Same
          (PbUploadRel c codec)
          (read_exact read n (pieces h.reader.last_kind h.reader.last_message ps))
          (read_exact (PbTcpServer.read c codec) n r))
pb_upload c codec ps n w w' h r laws round hs sent (hp, he, rp, re) (hc, rc) (hb, rb) =
    let (x, is, yields) = pb_upload_Yields c laws codec round ps w w' hs sent in
    let b : h.reader.bytes ≡ x = hb ∙ rw is (drop-append w.writer.written x) in
    let t = pieces h.reader.last_kind h.reader.last_message ps in
    let y : Yields (PbTcpServer.next_payload c codec h.pw h.encrypt) h.reader t =
      rw (hp, he) (yields h.reader b) in
    let y' : Yields (PbTcpServer.next_payload c codec r.pw r.encrypt) r.reader t =
      rw (rp, re, rb) (yields h.reader b) in
    (
      pb_upload_read_half-Same c codec n t h (rw hc (omega arith, (t, refl, y))),
      read_exact-Same _ read (PbTcpServer.read c codec) (pb_upload_read-Same c codec) n t r
          (rw rc (omega arith, (t, refl, y'))),
    )
