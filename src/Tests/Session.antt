-- ===== src/Tests/Session.antt =====
-- Runs of UDP over pb_tcp, and of a whole pb_tcp connection.
use rog.Prelude.{
  ◌+◌, ◌≤◌, ◌≡◌, ◌≢◌, refl, true, false, none, some, [], ◌∷◌, ◌++◌, ok, err, other, Reader, length,
  drop, arith, write_all,
}
use rog.Prelude.Word.{to_be}
use rog.Frame.{write_frame, wrapping_sub, write_conn_type, max_frame}
use rog.Frame.Message.{IsShort}
use rog.Text.{is_utf8}
use rog.Crypto.{encrypt_field, encrypt_bytes, derive_key}
use rog.Streams.Cached.{cleared}
use rog.Streams.PbTcpServer
use rog.Streams.PbTcpClient
use rog.UdpPacket.{UdpPacket}
use rog.Proto.{udp_req_from_packet, udp_res_try_from}
use rog.UdpStreams.PbTcp.{
  Nonces, ClientWriter, ServerReader, ServerWriter, ClientReader, client_write, server_read,
  server_write,
}
use rog.UdpStreams.PbTcp.RoundTrip.{pb_udp_upload}
use rog.Address.{RunAddr, parse_address, endpoint}
use rog.Address.RoundTrip.{parse_address-endpoint}
use rog.Connector.PbTcp.{PbTcpRunConnector, Random, Dial, connect}
use rog.Listener.PbTcp.{stream, dispatch, handshake}
use rog.Listener.PbTcp.Session.{pb_tcp_session}
use rog.Tests.Sample.{
  cipher, cipher-IsCipher, codec, codec-IsCodec, encode_req, encode_udp_req, encode_udp_res, put,
  put_opt, put_num,
}
use rog.Tests.PbTcp.{nonce, pw, idle, over, or_else, pw-is_utf8}

abbrev nonces : Nonces
nonces = record { for_auth = nonce; for_dst = nonce; for_src = nonce; for_payload = nonce }

abbrev query : UdpPacket
query = record {
  meta = record { dst_addr = b'a' ∷ []; dst_port = 53; src_addr = b'b' ∷ []; src_port = 5353 };
  payload = 1 ∷ [];
}

query_text : (is_utf8 query.dst_addr ≡ true) × (is_utf8 query.src_addr ≡ true)
unfolding is_utf8
query_text = (refl, refl)

abbrev sending : ClientWriter
sending = record { writer = idle; auth = pw; pw = pw }

abbrev sent : ClientWriter
sent = or_else (client_write cipher codec nonces 9 query sending) sending

sent_is : client_write cipher codec nonces 9 query sending ≡ ok sent
unfolding client_write udp_req_from_packet encrypt_field encrypt_bytes derive_key write_frame
    wrapping_sub to_be write_all encode_udp_req put put_opt put_num
sent_is = refl

sent-IsShort : IsShort sending.writer sent.writer
unfolding client_write udp_req_from_packet encrypt_field encrypt_bytes derive_key write_frame
    wrapping_sub to_be write_all encode_udp_req put put_opt put_num
sent-IsShort = omega arith

abbrev receiving : ServerReader
receiving = record { reader = over (drop 0 sent.writer.written ++ 7 ∷ []); auth = pw; pw = pw }

pb_udp_upload_example :
    (pw ≡ receiving.auth
      → server_read cipher codec receiving
        ≡ ok (query, record receiving { reader = over (7 ∷ []) }))
    × (pw ≢ receiving.auth
        → server_read cipher codec receiving ≡ err other "pb tcp udp auth mismatch")
pb_udp_upload_example =
    pb_udp_upload cipher cipher-IsCipher codec codec-IsCodec nonces 9 query (7 ∷ []) sending sent
      receiving (refl, refl, refl, refl) (omega arith) (omega arith, omega arith) query_text
      pw-is_utf8 refl sent_is sent-IsShort refl

abbrev answering : ServerWriter
answering = record { writer = idle; pw = pw }

abbrev answered : ServerWriter
answered = or_else (server_write cipher codec nonces 9 query answering) answering

answered_is : server_write cipher codec nonces 9 query answering ≡ ok answered
unfolding server_write udp_res_try_from encrypt_field encrypt_bytes derive_key write_frame
    wrapping_sub to_be write_all encode_udp_res put put_opt put_num
answered_is = refl

answered-IsShort : IsShort answering.writer answered.writer
unfolding server_write udp_res_try_from encrypt_field encrypt_bytes derive_key write_frame
    wrapping_sub to_be write_all encode_udp_res put put_opt put_num
answered-IsShort = omega arith

abbrev waiting : ClientReader
waiting = record { reader = over (drop 0 answered.writer.written ++ []); pw = pw }

abbrev target : RunAddr
target = record { addr = b'h' ∷ []; port = 8080; udp = false }

abbrev dial : Dial
dial ep = ok (over [], idle)

abbrev node : PbTcpRunConnector
node = record { endpoint = some (b'n' ∷ []); pw = some pw }

abbrev random : Random
random = record { for_auth = nonce; for_dst = nonce; word = 9 }

target_parses : parse_address (endpoint target) ≡ ok (b'h' ∷ [], 8080)
target_parses = parse_address-endpoint target (λ e. cc) (omega arith)

host-is_utf8 : is_utf8 (b'h' ∷ []) ≡ true
unfolding is_utf8
host-is_utf8 = refl

abbrev client : PbTcpClient.RunStream
client =
    or_else (connect cipher codec dial random node (endpoint target))
      (PbTcpClient.new (over []) idle pw true)

client_is : connect cipher codec dial random node (endpoint target) ≡ ok client
unfolding connect write_conn_type encrypt_field encrypt_bytes derive_key write_frame wrapping_sub
    to_be write_all encode_req put put_opt put_num
client_is = rw target_parses refl

client_is_small : length client.writer.written ≤ length idle.written + 17 + max_frame
unfolding connect write_conn_type encrypt_field encrypt_bytes derive_key write_frame wrapping_sub
    to_be write_all encode_req put put_opt put_num PbTcpClient.set_info PbTcpClient.new
client_is_small = rw target_parses (omega arith)

abbrev arrived : Reader
arrived = over (drop 0 client.writer.written ++ 7 ∷ [])

pb_tcp_session_example :
    (s : PbTcpServer.RunStream) × (dispatch pw arrived idle ≡ ok (stream s))
    × ((s' : PbTcpServer.RunStream) × (handshake cipher codec pw s
          ≡ ok ((record { addr = b'h' ∷ []; port = 8080; udp = false }, none), s'))
        × (s'.pw ≡ client.pw)
        × (s'.encrypt ≡ client.encrypt)
        × (s'.cached ≡ cleared)
        × (s'.reader ≡ over (7 ∷ [])))
pb_tcp_session_example =
    pb_tcp_session cipher codec random dial node (endpoint target) (b'n' ∷ []) (b'h' ∷ []) pw 8080
      (over []) idle client (7 ∷ []) arrived idle cipher-IsCipher codec-IsCodec (refl, refl, refl)
      target_parses (pw-is_utf8, host-is_utf8) (refl, refl, omega arith) client_is client_is_small
      refl
