-- ===== src/Frame.antt =====
-- src/util/tcp_frame.rs: length-prefixed frames on a TCP connection. The two header words are a
-- random number `r` and the length minus `r`, both 64 bits wide, and wrap around. `usize` has 64
-- bits. The encoded message is a byte string, and `r`, which the source draws from `OsRng`, an
-- argument.
pub mod RoundTrip
pub mod Stream
pub mod Message
use rog.Prelude.{
  map_err, ℕ, ◌+◌, ◌-◌, ◌*◌, ◌^◌, ◌%◌, ltb, if◌then◌else◌, ◌∷◌, [], Result, ok, err, other, ◌>>=◌,
  Reader, Writer, read_exact, write_all, get_or, length, take, drop,
}
use rog.Prelude.Word.{Bytes, to_be, from_be}

abbrev pub conn_type_stream : ℕ
conn_type_stream = 0x01

abbrev pub conn_type_udp : ℕ
conn_type_udp = 0x02

abbrev pub u64_mod : ℕ
u64_mod = 2 ^ 64

abbrev pub max_frame : ℕ
max_frame = 16 * 1024 * 1024

-- `u64::wrapping_sub` and `u64::wrapping_add`.
unfoldable pub wrapping_sub : ℕ → ℕ → ℕ
wrapping_sub a b = (a + u64_mod - b) % u64_mod

unfoldable pub wrapping_add : ℕ → ℕ → ℕ
wrapping_add a b = (a + b) % u64_mod

-- The writer passes on at once what it is given, so that `flush` has nothing to do.
unfoldable pub write_frame : ℕ → Bytes → Writer → Result Writer
write_frame r data' w = do
  let len = length data'
  let second = wrapping_sub len r
  w ← write_all (to_be 8 r) w
  w ← write_all (to_be 8 second) w
  write_all data' w

-- The length that a header of 16 bytes announces.
unfoldable pub header_len : Bytes → ℕ
header_len buf16 = wrapping_add (from_be (take 8 buf16)) (from_be (drop 8 buf16))

unfoldable pub read_body : ℕ → Reader → Result (Bytes × Reader)
read_body len reader =
    if ltb max_frame len then err other "frame too large" else read_exact len reader

unfoldable pub read_frame : Reader → Result (Bytes × Reader)
read_frame reader = do (buf16, reader) ← read_exact 16 reader; read_body (header_len buf16) reader

-- `decode` stands for `Message::decode`.
unfoldable pub read_msg : {M : Type 0} → (Bytes → Result M) → Reader → Result (M × Reader)
read_msg decode reader = do
  (data', reader) ← read_frame reader
  msg ← map_err "protobuf decode: " (decode data')
  ok (msg, reader)

unfoldable pub read_conn_type : Reader → Result (ℕ × Reader)
read_conn_type reader = do (buf, reader) ← read_exact 1 reader; ok (get_or buf 0 0, reader)

unfoldable pub write_conn_type : ℕ → Writer → Result Writer
write_conn_type conn_type w = write_all (conn_type ∷ []) w
