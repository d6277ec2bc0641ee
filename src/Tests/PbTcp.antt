-- ===== src/Tests/PbTcp.antt =====
-- Runs of the encrypted streams over TCP, with the sample cipher and codec.
use rog.Prelude.{
  ℕ, ◌≡◌, ◌≢◌, refl, Bool, true, false, Option, none, some, List, [], ◌∷◌, ◌++◌, Result, ok, err,
  other, unexpected_eof, Reader, Writer, length, drop, arith,
}
use rog.Prelude.Word.{Bytes, to_be}
use rog.Frame
use rog.Frame.{write_frame, wrapping_sub}
use rog.Text.{is_utf8}
use rog.Crypto.{encrypt_field, encrypt_bytes, derive_key}
use rog.RunStream.{read, read_exact}
use rog.RunStream.Simulation.{Same}
use rog.Streams.{default}
use rog.Streams.Cached.{cleared}
use rog.Streams.Refines.{Related}
use rog.Streams.PbTcp.{Write, pieces}
use rog.Streams.PbTcp.Upload.{pb_upload}
use rog.Streams.PbTcp.Download.{pb_download}
use rog.Streams.PbTcpServer
use rog.Streams.PbTcpClient
use rog.Tests.Sample.{
  cipher, cipher-IsCipher, codec, codec-IsCodec, encode_req, put, put_opt, put_num,
}

abbrev pub nonce : Bytes
nonce = 0 ∷ 1 ∷ 2 ∷ 3 ∷ 4 ∷ 5 ∷ 6 ∷ 7 ∷ 8 ∷ 9 ∷ 10 ∷ 11 ∷ []

abbrev pub pw : Bytes
pw = b'p' ∷ b'w' ∷ []

abbrev pub idle : Writer
idle = record { written = []; room = 1000 }

abbrev pub over : Bytes → Reader
over bs = record { bytes = bs; last_kind = unexpected_eof; last_message = "early eof" }

abbrev pub or_else : {A : Type 0} → Result A → A → A
or_else (ok a) d = a
or_else _ d = d

pub pw-is_utf8 : is_utf8 pw ≡ true
unfolding is_utf8
pw-is_utf8 = refl

abbrev field : Bytes
field = or_else (encrypt_field cipher nonce pw pw) []

field_is : encrypt_field cipher nonce pw pw ≡ ok field
unfolding encrypt_field encrypt_bytes derive_key
field_is = refl

abbrev one : Write
one = record { nonce = nonce; word = 9; buf = 1 ∷ 2 ∷ 3 ∷ [] }

abbrev up₀ : PbTcpClient.WriteHalf
up₀ = record { writer = idle; pw = pw; encrypt = true }

abbrev up₁ : PbTcpClient.WriteHalf
up₁ = or_else (PbTcpClient.write_half cipher codec nonce 9 (1 ∷ 2 ∷ 3 ∷ []) up₀) up₀

up_is : PbTcpClient.write_half cipher codec nonce 9 (1 ∷ 2 ∷ 3 ∷ []) up₀ ≡ ok up₁
unfolding PbTcpClient.write_half encrypt_bytes derive_key write_frame wrapping_sub to_be
    rog.Prelude.write_all encode_req put put_opt put_num
up_is = refl

up-IsShort : rog.Frame.Message.IsShort up₀.writer up₁.writer
unfolding PbTcpClient.write_half encrypt_bytes derive_key write_frame wrapping_sub to_be
    rog.Prelude.write_all encode_req put put_opt put_num
up-IsShort = omega arith

abbrev up_half : PbTcpServer.ReadHalf
up_half = record {
  reader = over (drop 0 up₁.writer.written);
  cached = cleared;
  pw = pw;
  encrypt = true;
}

abbrev up_stream : PbTcpServer.RunStream
up_stream = record {
  reader = over (drop 0 up₁.writer.written);
  writer = idle;
  cached = cleared;
  info = default;
  pw = pw;
  encrypt = true;
}

pb_upload_example :
    (Same
      (λ t r. Related (PbTcpServer.next_payload cipher codec r.pw r.encrypt) t (r.cached, r.reader))
      (read 2 (pieces unexpected_eof "early eof" (one ∷ [])))
      (PbTcpServer.read_half cipher codec 2 up_half))
    × (Same
        (λ t r.
          Related (PbTcpServer.next_payload cipher codec r.pw r.encrypt) t (r.cached, r.reader))
        (read_exact read 2 (pieces unexpected_eof "early eof" (one ∷ [])))
        (read_exact (PbTcpServer.read cipher codec) 2 up_stream))
pb_upload_example =
    pb_upload cipher codec (one ∷ []) 2 up₀ up₁ up_half up_stream cipher-IsCipher codec-IsCodec
      ((refl, omega arith), tt) (up₁, up_is, up-IsShort, refl) (refl, refl, refl, refl) (refl, refl)
      (refl, refl)

abbrev down₀ : PbTcpServer.WriteHalf
down₀ = record { writer = idle; pw = pw; encrypt = false }

abbrev down₁ : PbTcpServer.WriteHalf
down₁ = or_else (PbTcpServer.write_half cipher codec nonce 9 (1 ∷ 2 ∷ 3 ∷ []) down₀) down₀

down_is : PbTcpServer.write_half cipher codec nonce 9 (1 ∷ 2 ∷ 3 ∷ []) down₀ ≡ ok down₁
unfolding PbTcpServer.write_half encrypt_bytes derive_key write_frame wrapping_sub to_be
    rog.Prelude.write_all
down_is = refl

down-IsShort : rog.Frame.Message.IsShort down₀.writer down₁.writer
unfolding PbTcpServer.write_half encrypt_bytes derive_key write_frame wrapping_sub to_be
    rog.Prelude.write_all
down-IsShort = omega arith

abbrev down_half : PbTcpClient.ReadHalf
down_half = record {
  reader = over (drop 0 down₁.writer.written);
  cached = cleared;
  pw = pw;
  encrypt = false;
}

abbrev down_stream : PbTcpClient.RunStream
down_stream = record {
  reader = over (drop 0 down₁.writer.written);
  writer = idle;
  cached = cleared;
  info = default;
  pw = pw;
  encrypt = false;
}

pb_download_example :
    (Same
      (λ t r. Related (PbTcpClient.next_payload cipher codec r.pw r.encrypt) t (r.cached, r.reader))
      (read 2 (pieces unexpected_eof "early eof" (one ∷ [])))
      (PbTcpClient.read_half cipher codec 2 down_half))
    × (Same
        (λ t r.
          Related (PbTcpClient.next_payload cipher codec r.pw r.encrypt) t (r.cached, r.reader))
        (read_exact read 2 (pieces unexpected_eof "early eof" (one ∷ [])))
        (read_exact (PbTcpClient.read cipher codec) 2 down_stream))
pb_download_example =
    pb_download cipher codec (one ∷ []) 2 down₀ down₁ down_half down_stream cipher-IsCipher
      codec-IsCodec ((refl, omega arith), tt) (down₁, down_is, down-IsShort, refl)
      (refl, refl, refl, refl) (refl, refl) (refl, refl)
