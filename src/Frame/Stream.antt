-- ===== src/Frame/Stream.antt =====
-- Several frames of src/util/tcp_frame.rs one after the other on one connection.
use rog.Prelude.{
  ℕ, ◌≤◌, ◌<◌, ◌≡◌, refl, ◌∙◌, le→ltb, ◌∷◌, [], List, ◌++◌, append-nil, append_assoc, arith, Result,
  ok, ◌>>=◌, >>=-eq-ok, Reader, Writer, length, drop, drop-append, zero, suc,
}
use rog.Prelude.Word.{Bytes}
use rog.Frame.{u64_mod, max_frame, read_frame, write_frame}
use rog.Frame.RoundTrip.{frame, read_frame-frame, write_frame-written}

-- Each message with the random word that its frame is written with.
unfoldable pub write_frames : List (ℕ × Bytes) → Writer → Result Writer
write_frames [] w = ok w
write_frames ((r, data') ∷ ms) w = do w ← write_frame r data' w; write_frames ms w

pub read_frames : ℕ → Reader → Result (List Bytes × Reader)
read_frames zero reader = ok ([], reader)
read_frames (suc n) reader = do
  (data', reader) ← read_frame reader
  (rest, reader) ← read_frames n reader
  ok (data' ∷ rest, reader)

abbrev pub payloads : List (ℕ × Bytes) → List Bytes
payloads [] = []
payloads ((r, data') ∷ ms) = data' ∷ payloads ms

-- Random words of 64 bits, and data of at most 16 MiB.
abbrev pub AreFrames : List (ℕ × Bytes) → Type 0
AreFrames [] = Unit {0}
AreFrames ((r, data') ∷ ms) = (r < u64_mod) × (length data' ≤ max_frame) × AreFrames ms

frames : List (ℕ × Bytes) → Bytes
frames [] = []
frames ((r, data') ∷ ms) = frame r data' ++ frames ms

write_frames-written :
    (ms : List (ℕ × Bytes)) (w : Writer) {w' : Writer}
    → write_frames ms w ≡ ok w'
    → w'.written ≡ w.written ++ frames ms
unfolding write_frames frames
write_frames-written [] w h = rw append-nil (ground arith)
write_frames-written ((r, data') ∷ ms) w h =
    let (w₁, e₁, h₁) = >>=-eq-ok (write_frame r data' w) _ h in
    write_frames-written ms w₁ h₁
    ∙ rw (write_frame-written r data' w e₁) (append_assoc w.written (frame r data') (frames ms))

read_frames-frames :
    (ms : List (ℕ × Bytes)) (rest : Bytes) (reader : Reader)
    → AreFrames ms
    → reader.bytes ≡ frames ms ++ rest
    → read_frames (length ms) reader ≡ ok (payloads ms, record reader { bytes = rest })
unfolding read_frames frames
read_frames-frames [] rest reader h b = ground arith
read_frames-frames ((r, data') ∷ ms) rest reader (hr, hl, hs) b =
    let e : read_frame reader ≡ ok (data', record reader { bytes = frames ms ++ rest }) =
      read_frame-frame r data' (frames ms ++ rest) reader hr (omega arith)
        (b ∙ append_assoc (frame r data') (frames ms) rest)
      ∙ rw (le→ltb max_frame (length data') hl) in
    rw (e, read_frames-frames ms rest (record reader { bytes = frames ms ++ rest }) hs refl)

-- Messages of at most 16 MiB written one after the other, each with its own 64-bit random word,
-- come out of as many reads with the same contents, boundaries and order, and the reader is left
-- exactly behind them.
pub read_frames-write_frames :
    (ms : List (ℕ × Bytes)) (rest : Bytes) (w w' : Writer) (reader : Reader)
    → AreFrames ms
    → write_frames ms w ≡ ok w'
    → reader.bytes ≡ drop (length w.written) w'.written ++ rest
    → read_frames (length ms) reader ≡ ok (payloads ms, record reader { bytes = rest })
read_frames-write_frames ms rest w w' reader hs h b =
    read_frames-frames ms rest reader hs
      (b ∙ rw (write_frames-written ms w h, drop-append w.written (frames ms)))
