-- ===== src/Frame/Message.antt =====
-- `read_msg` of src/util/tcp_frame.rs on a message that `write_frame` wrote.
use rog.Prelude.{
  err, [], read_exact, ℕ, ◌+◌, ◌≤◌, ◌<◌, ◌≡◌, ap, le→ltb, ◌++◌, arith, Result, ok, Reader, Writer,
  length, length-append, drop,
}
use rog.Prelude.Word.{Bytes}
use rog.Frame.{read_frame, u64_mod, max_frame, read_msg, write_frame}
use rog.Frame.RoundTrip.{frame, frame-length, read_frame-write_frame, write_frame-written}

-- One write added at most a header and 16 MiB.
abbrev pub IsShort : Writer → Writer → Type 0
IsShort w w' = length w'.written ≤ length w.written + 16 + max_frame

-- What one write added is what the reader has in front of `rest`.
abbrev pub Carries : Writer → Writer → Bytes → Reader → Type 0
Carries w w' rest reader = reader.bytes ≡ drop (length w.written) w'.written ++ rest

-- A message of at most 16 MiB that was written is decoded, and the reader stands behind it.
pub read_msg-write_frame :
    {M : Type 0}
    → (decode : Bytes → Result M) (m : M) (word : ℕ) (data' rest : Bytes) (w w' : Writer)
      (reader : Reader)
    → decode data' ≡ ok m
    → word < u64_mod
    → write_frame word data' w ≡ ok w'
    → IsShort w w'
    → Carries w w' rest reader
    → read_msg decode reader ≡ ok (m, record reader { bytes = rest })
unfolding read_msg
read_msg-write_frame decode m word data' rest w w' reader d hw h short b =
    let size : length data' ≤ max_frame = omega (
      arith,
      short,
      ap length (write_frame-written word data' w h),
      length-append w.written (frame word data'),
      frame-length word data',
    ) in
    let e = read_frame-write_frame word data' rest w w' reader hw (omega arith) h b in
    rw (e, le→ltb max_frame (length data') size, d)

-- At the end of the connection, its error is reported.
pub read_msg-closed :
    {M : Type 0}
    → (decode : Bytes → Result M) (reader : Reader) → reader.bytes ≡ []
    → read_msg decode reader ≡ err reader.last_kind reader.last_message
unfolding read_msg read_frame read_exact
read_msg-closed decode reader b = rw b
