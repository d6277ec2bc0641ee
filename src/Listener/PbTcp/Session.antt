-- ===== src/Listener/PbTcp/Session.antt =====
-- A connection that src/connector/pb_tcp.rs opens, as src/listener/pb_tcp.rs takes it.
use rog.Prelude.{
  ◌≤◌, ◌+◌, suc, false, le→ltb, ℕ, ◌<◌, ◌≡◌, refl, sym, ap, ◌∙◌, ◌==◌, not, true, bytes_eq_refl,
  none, some, [], ◌∷◌, ◌++◌, append_assoc, drop-append, length-append, arith, ok, >>=-eq-ok, Reader,
  Writer, read_exact, write_all, length, drop, ◌%◌,
}
use rog.Prelude.Word.{Bytes, codes}
use rog.Frame.{u64_mod, max_frame, conn_type_stream, write_conn_type, read_conn_type, write_frame}
use rog.Frame.RoundTrip.{frame, write_frame-written}
use rog.Frame.Message.{IsShort, Carries, read_msg-write_frame}
use rog.Text.{is_utf8}
use rog.Crypto.{Cipher, nonce_len, encrypt_field}
use rog.Crypto.RoundTrip.{IsCipher, decrypt_field-encrypt_field}
use rog.Proto.{StreamReq}
use rog.Proto.Codec.{Codec, IsCodec}
use rog.Address.{parse_address}
use rog.Address.RoundTrip.{parse_address-eq-ok}
use rog.Streams.PbTcp.{ok-inj}
use rog.Streams.Cached.{cleared}
use rog.Streams.PbTcpServer
use rog.Streams.PbTcpClient
use rog.Connector.PbTcp.{PbTcpRunConnector, Random, Dial, connect}
use rog.Listener.PbTcp.{stream, dispatch, handshake}

abbrev opening : Bytes → Bytes → ℕ → StreamReq
opening auth dst port = record {
  auth = auth;
  payload = none;
  dst_addr = some dst;
  dst_port = some port;
}

write_conn_type-written :
    (t : ℕ) (w w' : Writer) → write_conn_type t w ≡ ok w' → w'.written ≡ w.written ++ t ∷ []
unfolding write_conn_type write_all
write_conn_type-written t w w' h = ground arith

read_conn_type-cons :
    (t : ℕ) (rest : Bytes) (r : Reader)
    → r.bytes ≡ t ∷ rest
    → read_conn_type r ≡ ok (t, record r { bytes = rest })
unfolding read_conn_type read_exact
read_conn_type-cons t rest r b = rw (b, le→ltb (suc (length rest)) 1 (omega arith))

module _ (c : Cipher) (codec : Codec) (rnd : Random) (host pw : Bytes) (port : ℕ)
    (reader : Reader) where
  -- What a successful `connect` wrote on its fresh connection, and the stream that it returned.
  record Opened (w : Writer) (client : PbTcpClient.RunStream) : Type 0 where
    auth : Bytes
    dst : Bytes
    typed : Writer
    auth_is : encrypt_field c rnd.for_auth pw pw ≡ ok auth
    dst_is : encrypt_field c rnd.for_dst host pw ≡ ok dst
    typed_is : write_conn_type conn_type_stream w ≡ ok typed
    frame_is :
        write_frame rnd.word (codec.encode_req (opening auth dst port)) typed ≡ ok client.writer
    pw_is : client.pw ≡ pw
    encrypt_is : client.encrypt ≡ not (port == 443)

  connect-Opened :
      (dial : Dial) (cfg : PbTcpRunConnector) (addr endpoint : Bytes) (w : Writer)
      (client : PbTcpClient.RunStream)
      → parse_address addr ≡ ok (host, port)
      → cfg.pw ≡ some pw
      → cfg.endpoint ≡ some endpoint
      → dial endpoint ≡ ok (reader, w)
      → connect c codec dial rnd cfg addr ≡ ok client
      → Opened w client
  unfolding connect PbTcpClient.set_info PbTcpClient.new
  connect-Opened dial cfg addr endpoint w client pa cp ce d h =
      let h₀ = rw (pa, cp, ce, d) at h in
      let (w₁, e₁, h₁) = >>=-eq-ok (write_conn_type conn_type_stream w) _ h₀ in
      let (a, e₂, h₂) = >>=-eq-ok (encrypt_field c rnd.for_auth pw pw) _ h₁ in
      let (x, e₃, h₃) = >>=-eq-ok (encrypt_field c rnd.for_dst host pw) _ h₂ in
      let (w₂, e₄, h₄) =
        >>=-eq-ok (write_frame rnd.word (codec.encode_req (opening a x port)) w₁) _ h₃ in
      let is = ok-inj _ _ h₄ in
      record {
        auth = a;
        dst = x;
        typed = w₁;
        auth_is = e₂;
        dst_is = e₃;
        typed_is = e₁;
        frame_is = e₄ ∙ ap (λ (s : PbTcpClient.RunStream). ok s.writer) is;
        pw_is = sym (ap (λ (s : PbTcpClient.RunStream). s.pw) is);
        encrypt_is = sym (ap (λ (s : PbTcpClient.RunStream). s.encrypt) is);
      }

  module _ (laws : IsCipher c) (round : IsCodec codec) where
    Opened-session :
        (w : Writer) (client : PbTcpClient.RunStream) (rest : Bytes) (r : Reader) (sw : Writer)
        → Opened w client
        → (length rnd.for_auth ≡ nonce_len)
          × (length rnd.for_dst ≡ nonce_len)
          × (rnd.word < u64_mod)
        → (is_utf8 pw ≡ true) × (is_utf8 host ≡ true)
        → port < 65536
        → length client.writer.written ≤ length w.written + 17 + max_frame
        → Carries w client.writer rest r
        → (s : PbTcpServer.RunStream) × (dispatch pw r sw ≡ ok (stream s))
          × ((s' : PbTcpServer.RunStream) × (handshake c codec pw s
                ≡ ok ((record { addr = host; port = port; udp = false }, none), s'))
              × (s'.pw ≡ client.pw)
              × (s'.encrypt ≡ client.encrypt)
              × (s'.cached ≡ cleared)
              × (s'.reader ≡ record r { bytes = rest }))
    unfolding dispatch handshake PbTcpServer.new PbTcpServer.handshake PbTcpServer.set_info
    Opened-session w client rest r sw o (na, nd, hw) (tp, th) hp short b =
        let typed = write_conn_type-written conn_type_stream w o.typed o.typed_is in
        let msg = codec.encode_req (opening o.auth o.dst port) in
        let framed = write_frame-written rnd.word msg o.typed o.frame_is in
        let x = frame rnd.word msg in
        let tail : drop (length o.typed.written) client.writer.written ++ rest ≡ x ++ rest =
          rw framed (rw (drop-append o.typed.written x)) in
        let bytes : r.bytes ≡ conn_type_stream ∷ (x ++ rest) =
          b
          ∙ rw (
            framed,
            typed,
            append_assoc w.written (conn_type_stream ∷ []) x,
            drop-append w.written (conn_type_stream ∷ x),
          ) in
        let size : IsShort o.typed client.writer =
          omega (arith, short, ap length typed, length-append w.written (conn_type_stream ∷ [])) in
        let behind : Reader = record r { bytes = x ++ rest } in
        let read =
          read_msg-write_frame codec.decode_req (opening o.auth o.dst port) rnd.word msg rest
            o.typed client.writer behind (round.stream_req _) hw o.frame_is size (sym tail) in
        let a = decrypt_field-encrypt_field c laws rnd.for_auth pw pw o.auth na tp o.auth_is in
        let d = decrypt_field-encrypt_field c laws rnd.for_dst host pw o.dst nd th o.dst_is in
        let low : port % 65536 ≡ port = omega arith in
        let s = PbTcpServer.new behind sw in
        (
          s,
          rw (read_conn_type-cons conn_type_stream (x ++ rest) r bytes),
          (
            record s {
              reader = record r { bytes = rest };
              pw = pw;
              encrypt = not (port == 443);
              info = record (s.info) { protocol_name = codes "pb_tcp" };
            },
            rw (read, a, d, low, bytes_eq_refl pw),
            sym o.pw_is,
            sym o.encrypt_is,
            refl,
            refl,
          ),
        )

-- Let `connect` succeed to a destination whose host is UTF-8, under a password that is UTF-8, with
-- nonces of 12 bytes, a 64-bit random word and an opening frame of at most 16 MiB. The acceptor, with
-- the same password, takes the connection as a stream, and its handshake returns the host and the
-- port that were asked for and no cached payload. Both ends then have the same password and agree on
-- encryption, and the acceptor's stream stands behind what `connect` wrote.
pub pb_tcp_session :
    (c : Cipher) (codec : Codec) (rnd : Random) (dial : Dial) (cfg : PbTcpRunConnector)
    (addr endpoint host pw : Bytes) (port : ℕ) (reader : Reader) (w : Writer)
    (client : PbTcpClient.RunStream) (rest : Bytes) (r : Reader) (sw : Writer)
    → IsCipher c
    → IsCodec codec
    → (cfg.pw ≡ some pw) × (cfg.endpoint ≡ some endpoint) × (dial endpoint ≡ ok (reader, w))
    → parse_address addr ≡ ok (host, port)
    → (is_utf8 pw ≡ true) × (is_utf8 host ≡ true)
    → (length rnd.for_auth ≡ nonce_len) × (length rnd.for_dst ≡ nonce_len) × (rnd.word < u64_mod)
    → connect c codec dial rnd cfg addr ≡ ok client
    → length client.writer.written ≤ length w.written + 17 + max_frame
    → Carries w client.writer rest r
    → (s : PbTcpServer.RunStream) × (dispatch pw r sw ≡ ok (stream s))
      × ((s' : PbTcpServer.RunStream) × (handshake c codec pw s
            ≡ ok ((record { addr = host; port = port; udp = false }, none), s'))
          × (s'.pw ≡ client.pw)
          × (s'.encrypt ≡ client.encrypt)
          × (s'.cached ≡ cleared)
          × (s'.reader ≡ record r { bytes = rest }))
pb_tcp_session c codec rnd dial cfg addr endpoint host pw port reader w client rest r sw laws round
      (cp, ce, d) pa text random h short b =
    let o =
      connect-Opened c codec rnd host pw port reader dial cfg addr endpoint w client pa cp ce d h in
    let (_, low, _) = parse_address-eq-ok addr host port pa in
    Opened-session c codec rnd host pw port reader laws round w client rest r sw o random text low
      short b
