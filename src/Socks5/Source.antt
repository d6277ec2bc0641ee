-- ===== src/Socks5/Source.antt =====
-- What the two parsers of src/util/socks5/parser.rs have in common: a source that hands out the
-- bytes of its view in order.
use rog.Prelude.{
  take-nil, inr, inl, unexpected_eof, drop_all, take_all, err, ◌⊎◌, drop-add, false, ℕ, ◌+◌, ◌-◌,
  ◌≤◌, ◌<◌, ◌≡◌, ◌≢◌, refl, ap, ◌∙◌, ◌==◌, le→ltb, [], ◌∷◌, ◌++◌, append-nil, Result, ok, length,
  take, drop, length-append, length-drop, take-append, drop-append, arith, suc,
}
use rog.Prelude.Word.{Bytes, to_be, from_be-to_be, length-to_be}
use rog.RunStream.{filled, Stream}
use rog.RunStream.Exact.{bytes, IsLive, read_exact-IsLive}
use rog.Socks5.Parser.{
  MessageParser, read_u8, read_u16, read_vec, stream_read_exact, stream_parser, BytesParser,
  bytes_read_exact, bytes_parser,
}

-- A parser whose states have a view, the bytes to come, and which reads `n` of them wherever the
-- view begins with `n` bytes and `CanRead n` holds.
pub record IsSource {S : Type 0} (p : MessageParser S) : Type 1 where
  pub view : S → Bytes
  pub Inv : S → Type 0
  pub CanRead : ℕ → Type 0
  pub can_read_suc : (n : ℕ) → CanRead (suc n)
  pub reads :
      (n : ℕ) (s : S) (xs ys : Bytes)
      → CanRead n
      → Inv s
      → length xs ≡ n
      → view s ≡ xs ++ ys
      → (s' : S) × (p.read_exact n s ≡ ok (xs, s')) × (view s' ≡ ys) × (Inv s')

module _ {S : Type 0} (p : MessageParser S) (src : IsSource p) where
  open src use {view, Inv, CanRead, can_read_suc, reads}

  -- A step that gives `a` and leaves the view `ys`.
  abbrev pub Gives : {A : Type 0} → Result (A × S) → A → Bytes → Type 0
  Gives r a ys = (s' : S) × (r ≡ ok (a, s')) × (view s' ≡ ys) × (Inv s')

  pub read_u8-Gives :
      (b : ℕ) (ys : Bytes) (s : S) → Inv s → view s ≡ b ∷ ys → Gives (read_u8 ⦃p = p⦄ s) b ys
  unfolding read_u8
  read_u8-Gives b ys s i v =
      let (s', e, v', i') = reads 1 s (b ∷ []) ys (can_read_suc 0) i refl v in (s', rw e, v', i')

  pub read_u16-Gives :
      (port : ℕ) (ys : Bytes) (s : S)
      → port < 65536
      → Inv s
      → view s ≡ to_be 2 port ++ ys
      → Gives (read_u16 ⦃p = p⦄ s) port ys
  unfolding read_u16
  read_u16-Gives port ys s h i v =
      let (s', e, v', i') =
        reads 2 s (to_be 2 port) ys (can_read_suc 1) i (length-to_be 2 port) v in
      (s', rw e (rw (from_be-to_be 2 port h)), v', i')

  pub read_vec-Gives :
      (n : ℕ) (xs ys : Bytes) (s : S)
      → CanRead n
      → length xs ≡ n
      → Inv s
      → view s ≡ xs ++ ys
      → Gives (read_vec ⦃p = p⦄ n s) xs ys
  unfolding read_vec
  read_vec-Gives n xs ys s c l i v = reads n s xs ys c i l v

-- `BytesParser` over fixed data: the view is what stands behind the cursor.
pub bytes_reads :
    (data' : Bytes) (n : ℕ) (s : BytesParser) (xs ys : Bytes)
    → (s.bytes ≡ data') × (s.cursor ≤ length data')
    → length xs ≡ n
    → drop s.cursor s.bytes ≡ xs ++ ys
    → (s' : BytesParser) × (bytes_read_exact n s ≡ ok (xs, s'))
      × (drop s'.cursor s'.bytes ≡ ys)
      × ((s'.bytes ≡ data') × (s'.cursor ≤ length data'))
unfolding bytes_read_exact
bytes_reads data' n s xs ys (b, c) l v =
    let fits : length s.bytes ≡ s.cursor + n + length ys =
      omega (arith, ap length b, ap length v, length-drop s.cursor s.bytes, length-append xs ys) in
    let here : take n (drop s.cursor s.bytes) ≡ xs = rw (v, ← l) (take-append xs ys) in
    let behind : drop (s.cursor + n) s.bytes ≡ ys =
      rw (drop-add s.cursor n s.bytes, v, ← l) (drop-append xs ys) in
    (
      record s { cursor = s.cursor + n },
      rw (le→ltb (length s.bytes) (s.cursor + n) (omega arith), here),
      behind,
      (b, omega (arith, ap length b)),
    )

abbrev pub bytes_source : (data' : Bytes) → IsSource bytes_parser
bytes_source data' = record {
  view = λ s. drop s.cursor s.bytes;
  Inv = λ s. (s.bytes ≡ data') × (s.cursor ≤ length data');
  CanRead = λ n. Unit {0};
  can_read_suc = λ n. tt;
  reads = λ n s xs ys _. bytes_reads data' n s xs ys;
}

ne-nil_suc : (n : ℕ) (xs : Bytes) → length xs ≡ n → n ≢ 0 → (length xs == 0) ≡ false
ne-nil_suc n xs l ne = ground arith

pub stream_reads :
    (n : ℕ) (s : Stream) (xs ys : Bytes)
    → n ≢ 0
    → IsLive s
    → length xs ≡ n
    → bytes s ≡ xs ++ ys
    → (s' : Stream) × (stream_read_exact n s ≡ ok (xs, s')) × (bytes s' ≡ ys) × (IsLive s')
unfolding stream_read_exact
stream_reads n s xs ys ne h l v =
    let (s', h', left, e) = read_exact-IsLive n s h in
    let here : take n (bytes s) ≡ xs = rw (v, ← l) (take-append xs ys) in
    let behind : drop n (bytes s) ≡ ys = rw (v, ← l) (drop-append xs ys) in
    let none_left : n - length xs ≡ 0 = omega arith in
    (s', rw (e, here, ne-nil_suc n xs l ne, none_left, append-nil xs), left ∙ behind, h')

abbrev pub stream_source : IsSource stream_parser
stream_source = record {
  view = bytes;
  Inv = IsLive;
  CanRead = λ n. n ≢ 0;
  can_read_suc = λ n e. absurd (omega arith);
  reads = stream_reads;
}

-- Where the connection is closed early, the rest of the buffer reads as zeros.
pub stream_read_exact_short :
    (n : ℕ) (s : Stream)
    → IsLive s
    → length (bytes s) ≢ 0
    → length (bytes s) ≤ n
    → (s' : Stream) × (stream_read_exact n s ≡ ok (filled n (bytes s), s'))
      × (bytes s' ≡ [])
      × (IsLive s')
unfolding stream_read_exact
stream_read_exact_short n s h ne le =
    let (s', h', left, e) = read_exact-IsLive n s h in
    (
      s',
      rw (e, take_all n (bytes s) le, ne-nil_suc (length (bytes s)) (bytes s) refl ne),
      left ∙ drop_all n (bytes s) le,
      h',
    )

-- An empty buffer is never filled, and neither is any from a closed connection.
pub stream_read_exact_none :
    (n : ℕ) (s : Stream)
    → IsLive s
    → (n ≡ 0) ⊎ (bytes s ≡ [])
    → stream_read_exact n s ≡ err unexpected_eof "early eof"
unfolding stream_read_exact
stream_read_exact_none n s h (inl z) = let (s', h', left, e) = read_exact-IsLive n s h in rw (e, z)
stream_read_exact_none n s h (inr z) =
    let (s', h', left, e) = read_exact-IsLive n s h in rw (e, z, take-nil n)
