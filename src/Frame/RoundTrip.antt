-- ===== src/Frame/RoundTrip.antt =====
-- What `read_frame` of src/util/tcp_frame.rs makes of the bytes that `write_frame` puts on the wire.
use rog.Prelude.{
  ◌+◌, ℕ, ◌<◌, ◌≡◌, refl, ◌∙◌, ltb, if◌then◌else◌, le→ltb, ◌++◌, append_assoc, arith, ok, err,
  other, >>=-eq-ok, Reader, Writer, read_exact, write_all, length, take, drop, length-append,
  take-append, drop-append,
}
use rog.Prelude.Word.{Bytes, to_be, length-to_be, from_be-to_be}
use rog.Frame.{
  u64_mod, max_frame, wrapping_sub, wrapping_add, header_len, read_body, read_frame, write_frame,
}

-- The bytes of one frame.
pub frame : ℕ → Bytes → Bytes
frame r data' = to_be 8 r ++ (to_be 8 (wrapping_sub (length data') r) ++ data')

pub frame-length : (r : ℕ) (data' : Bytes) → length (frame r data') ≡ 16 + length data'
unfolding frame
frame-length r data' = omega (
  arith,
  length-append (to_be 8 r) (to_be 8 (wrapping_sub (length data') r) ++ data'),
  length-append (to_be 8 (wrapping_sub (length data') r)) data',
  length-to_be 8 r,
  length-to_be 8 (wrapping_sub (length data') r),
)

wrapping_add-wrapping_sub :
    (r len : ℕ) → r < u64_mod → len < u64_mod → wrapping_add r (wrapping_sub len r) ≡ len
unfolding wrapping_add wrapping_sub
wrapping_add-wrapping_sub r len hr hl = omega arith

wrapping_sub-lt : (a b : ℕ) → wrapping_sub a b < u64_mod
unfolding wrapping_sub
wrapping_sub-lt a b = omega arith

pub header_len-frame :
    (r len : ℕ)
    → r < u64_mod
    → len < u64_mod
    → header_len (to_be 8 r ++ to_be 8 (wrapping_sub len r)) ≡ len
unfolding header_len
header_len-frame r len hr hl =
    let e₁ : take 8 (to_be 8 r ++ to_be 8 (wrapping_sub len r)) ≡ to_be 8 r =
      rw (length-to_be 8 r) at (take-append (to_be 8 r) (to_be 8 (wrapping_sub len r))) in
    let e₂ : drop 8 (to_be 8 r ++ to_be 8 (wrapping_sub len r)) ≡ to_be 8 (wrapping_sub len r) =
      rw (length-to_be 8 r) at (drop-append (to_be 8 r) (to_be 8 (wrapping_sub len r))) in
    rw (e₁, e₂, from_be-to_be 8 r hr, from_be-to_be 8 _ (wrapping_sub-lt len r))
      (wrapping_add-wrapping_sub r len hr hl)

pub read_exact-append :
    (n : ℕ) (xs ys : Bytes) (reader : Reader)
    → length xs ≡ n
    → reader.bytes ≡ xs ++ ys
    → read_exact n reader ≡ ok (xs, record reader { bytes = ys })
unfolding read_exact
read_exact-append n xs ys reader len b = rw (
  b,
  ← len,
  le→ltb (length (xs ++ ys)) (length xs) (omega (arith, length-append xs ys)),
  take-append xs ys,
  drop-append xs ys,
)

-- A header is read off first; what follows depends on the length that it announces.
pub read_frame_step :
    (h tail : Bytes) (reader : Reader)
    → length h ≡ 16
    → reader.bytes ≡ h ++ tail
    → read_frame reader ≡ read_body (header_len h) (record reader { bytes = tail })
unfolding read_frame
read_frame_step h tail reader len b = rw (read_exact-append 16 h tail reader len b)

read_body-append :
    (xs ys : Bytes) (reader : Reader)
    → reader.bytes ≡ xs ++ ys
    → read_body (length xs) reader ≡ (
        if ltb max_frame (length xs)
        then err other "frame too large"
        else ok (xs, record reader { bytes = ys }))
unfolding read_body
read_body-append xs ys reader b = rw (read_exact-append (length xs) xs ys reader refl b)

-- Reading where one frame stands: its data, or the refusal of a frame that is too large.
pub read_frame-frame :
    (r : ℕ) (data' rest : Bytes) (reader : Reader)
    → r < u64_mod
    → length data' < u64_mod
    → reader.bytes ≡ frame r data' ++ rest
    → read_frame reader ≡ (
        if ltb max_frame (length data')
        then err other "frame too large"
        else ok (data', record reader { bytes = rest }))
unfolding frame
read_frame-frame r data' rest reader hr hl b =
    let second = to_be 8 (wrapping_sub (length data') r) in
    let split : reader.bytes ≡ (to_be 8 r ++ second) ++ (data' ++ rest) = b ∙ simp append_assoc in
    let len : length (to_be 8 r ++ second) ≡ 16 = omega (
      arith,
      length-append (to_be 8 r) second,
      length-to_be 8 r,
      length-to_be 8 (wrapping_sub (length data') r),
    ) in
    read_frame_step (to_be 8 r ++ second) (data' ++ rest) reader len split
    ∙ rw (header_len-frame r (length data') hr hl)
        (read_body-append data' rest (record reader { bytes = data' ++ rest }) refl)

write_all-eq-ok :
    (data' : Bytes) (w : Writer) {w' : Writer}
    → write_all data' w ≡ ok w'
    → w'.written ≡ w.written ++ data'
unfolding write_all
write_all-eq-ok data' w h = ground arith

-- A successful write puts exactly one frame behind what was written before.
pub write_frame-written :
    (r : ℕ) (data' : Bytes) (w : Writer) {w' : Writer}
    → write_frame r data' w ≡ ok w'
    → w'.written ≡ w.written ++ frame r data'
unfolding write_frame frame
write_frame-written r data' w h =
    let (w₁, e₁, h₁) = >>=-eq-ok (write_all (to_be 8 r) w) _ h in
    let (w₂, e₂, h₂) = >>=-eq-ok (write_all (to_be 8 (wrapping_sub (length data') r)) w₁) _ h₁ in
    write_all-eq-ok data' w₂ h₂
    ∙ rw (write_all-eq-ok _ w₁ e₂, write_all-eq-ok _ w e₁) (simp append_assoc)

-- Let a frame be written successfully with a 64-bit random word and a length below 2 ^ 64. A reader
-- that stands where it begins gets the data back and is left exactly behind the frame, if the data
-- has at most 16 MiB; a larger frame, which the writer accepts, is refused by the reader.
pub read_frame-write_frame :
    (r : ℕ) (data' rest : Bytes) (w w' : Writer) (reader : Reader)
    → r < u64_mod
    → length data' < u64_mod
    → write_frame r data' w ≡ ok w'
    → reader.bytes ≡ drop (length w.written) w'.written ++ rest
    → read_frame reader ≡ (
        if ltb max_frame (length data')
        then err other "frame too large"
        else ok (data', record reader { bytes = rest }))
read_frame-write_frame r data' rest w w' reader hr hl h b =
    read_frame-frame r data' rest reader hr hl
      (b ∙ rw (write_frame-written r data' w h, drop-append w.written (frame r data')))
