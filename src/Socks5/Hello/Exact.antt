-- ===== src/Socks5/Hello/Exact.antt =====
-- `ClientHello::parse` and `ClientHello::parse_bytes` of src/util/socks5/client_hello.rs.
use rog.Prelude.{
  inl, ℕ, ◌-◌, ◌<◌, ◌≡◌, ◌≢◌, refl, ap, ◌∙◌, true, [], ◌∷◌, ◌++◌, Result, ok, err, ◌>>=◌, length,
  replicate, arith, length-append, length-drop, unexpected_eof, zero, suc,
}
use rog.Prelude.Word.{Bytes}
use rog.RunStream.{Stream, filled}
use rog.RunStream.Exact.{bytes, IsLive}
use rog.Socks5.{no_auth}
use rog.Socks5.Parser.{MessageParser, bytes_parser, stream_parser, read_vec}
use rog.Socks5.Source.{
  IsSource, Gives, read_u8-Gives, read_vec-Gives, bytes_source, stream_source,
  stream_read_exact_short, stream_read_exact_none,
}
use rog.Socks5.Hello.{ClientHello, parse_inner, parse, parse_bytes, contains, has}

abbrev pub hello : ℕ → Bytes → ClientHello
hello n methods = record { version = 5; method_num = n; methods = methods }

-- The wire format of a hello.
abbrev pub encode : Bytes → Bytes
encode methods = 5 ∷ length methods ∷ methods

module _ {S : Type 0} (p : MessageParser S) (src : IsSource p) where
  open src use {view, Inv, CanRead, can_read_suc}

  abbrev methods_of : ℕ → S → Result (ClientHello × S)
  methods_of n s = do (methods, s) ← read_vec ⦃p = p⦄ n s; ok (hello n methods, s)

  parse_inner_header :
      (n : ℕ) (tail : Bytes) (s : S)
      → Inv s
      → view s ≡ 5 ∷ n ∷ tail
      → (s' : S) × (parse_inner ⦃p = p⦄ s ≡ methods_of n s') × (view s' ≡ tail) × (Inv s')
  unfolding parse_inner
  parse_inner_header n tail s i v =
      let (s₁, e₁, v₁, i₁) = read_u8-Gives p src 5 (n ∷ tail) s i v in
      let (s₂, e₂, v₂, i₂) = read_u8-Gives p src n tail s₁ i₁ v₁ in (s₂, rw (e₁, e₂), v₂, i₂)

  parse_inner-Gives :
      (methods ys : Bytes) (s : S)
      → CanRead (length methods)
      → Inv s
      → view s ≡ encode methods ++ ys
      → Gives p src (parse_inner ⦃p = p⦄ s) (hello (length methods) methods) ys
  parse_inner-Gives methods ys s c i v =
      let (s₁, e₁, v₁, i₁) = parse_inner_header (length methods) (methods ++ ys) s i v in
      let (s₂, e₂, v₂, i₂) = read_vec-Gives p src (length methods) methods ys s₁ c refl i₁ v₁ in
      (s₂, e₁ ∙ rw e₂, v₂, i₂)

-- `parse_bytes` of an encoded hello returns it and the length of its encoding, whatever follows.
pub hello-parse_bytes-encode :
    (methods rest : Bytes)
    → parse_bytes (encode methods ++ rest)
      ≡ ok (hello (length methods) methods, length (encode methods))
unfolding parse_bytes
hello-parse_bytes-encode methods rest =
    let data' = encode methods ++ rest in
    let (s, e, v, i) =
      parse_inner-Gives bytes_parser (bytes_source data') methods rest
        (record { bytes = data'; cursor = 0 }) tt (refl, omega arith) refl in
    let end : s.cursor ≡ length (encode methods) = omega (
      arith,
      ap length v,
      ap length i.0,
      i.1,
      length-drop s.cursor s.bytes,
      length-append (encode methods) rest,
    ) in
    rw e (ap (λ n. ok (hello (length methods) methods, n)) end)

-- On a connection that does not fail, `parse` of a hello with at least one method gives the same,
-- however the bytes are cut into pieces, and leaves the bytes behind the hello. A hello with no
-- method, which `parse_bytes` accepts, is refused as an early end.
pub hello-parse-encode :
    (methods rest : Bytes) (s : Stream)
    → IsLive s
    → bytes s ≡ encode methods ++ rest
    → ((length methods ≢ 0)
        → (s' : Stream) × (parse s ≡ ok (hello (length methods) methods, s'))
          × (bytes s' ≡ rest)
          × (IsLive s'))
      × ((length methods ≡ 0) → parse s ≡ err unexpected_eof "early eof")
unfolding parse read_vec
hello-parse-encode methods rest s live b =
    let (s₁, e₁, v₁, i₁) =
      parse_inner_header stream_parser stream_source (length methods) (methods ++ rest) s live b in
    (
      (λ ne. parse_inner-Gives stream_parser stream_source methods rest s ne live b),
      (λ z. e₁ ∙ rw (stream_read_exact_none (length methods) s₁ i₁ (inl z))),
    )

has-zeros : (xs : Bytes) (n : ℕ) → n ≢ 0 → has (xs ++ replicate n no_auth) no_auth ≡ true
unfolding has
has-zeros [] zero ne = absurd (ne refl)
has-zeros [] (suc n) ne = refl
has-zeros (x ∷ xs) n ne = ground (arith, has-zeros xs n ne)

-- A hello whose connection is closed after some, but not all, of the announced methods is accepted
-- all the same: the missing methods read as 0, which is the code of "no authentication", so that
-- `contains` finds a method that the client never offered.
pub hello_closed_early :
    (n : ℕ) (methods : Bytes) (s : Stream)
    → length methods ≢ 0
    → length methods < n
    → IsLive s
    → bytes s ≡ 5 ∷ n ∷ methods
    → (s' : Stream) × (parse s ≡ ok (hello n (filled n methods), s'))
      × (contains (hello n (filled n methods)) no_auth ≡ true)
unfolding parse contains read_vec
hello_closed_early n methods s ne lt live b =
    let (s₁, e₁, v₁, i₁) = parse_inner_header stream_parser stream_source n methods s live b in
    let (s₂, e₂, _, _) = stream_read_exact_short n s₁ i₁ (rw v₁ ne) (omega (arith, ap length v₁)) in
    (s₂, e₁ ∙ rw (e₂, v₁), has-zeros methods (n - length methods) (omega arith))
