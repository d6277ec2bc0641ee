-- ===== src/Size/Complete.antt =====
-- src/util/parse.rs: `parse_size` reads every text that means a size, and no other.
use rog.Prelude.{
  ℕ, ◌*◌, ◌≡◌, ◌≢◌, ◌↔◌, refl, sym, ap, ◌∙◌, ◌==◌, bytes_eq, bytes_eq_iff, false, Bool-cases, inl,
  inr, ◌||◌, some, [], ◌∷◌, ◌++◌, ok, arith,
}
use mathlib.Core.List.{reverse, reverse-reverse}
use rog.Prelude.Word.{Bytes, codes}
use rog.Text.{parse_u64}
use rog.Text.Search.{is_prefix}
use rog.Text.Trim.{trim}
use rog.Size.{
  Floats, Files, u64, to_lowercase, times, percentage, lower_size, parse_size, get_total_memory,
}
use rog.Size.Printed.{Multiple, plain, b, k, kb, m, mb, g, gb, factor, text, backwards}
use rog.Size.Accepted.{Means, off, percent, bytes, sized, parse_size-Means}
use rog.Size.Endings.{parse_u64-last, not_ending, forwards}

times_lem : (f i : ℕ) (x : Bytes) → parse_u64 (trim x) ≡ some i → times f x ≡ ok (u64 (i * f))
unfolding times
times_lem f i x e = rw e refl

-- A text whose last byte is not that of `off` is not `off`, nor empty.
not_off :
    (z : ℕ) (r s : Bytes)
    → reverse s ≡ z ∷ r
    → z ≢ b'f'
    → (bytes_eq s (codes "off") || bytes_eq s []) ≡ false
not_off z r s q n = elim (Bool-cases (bytes_eq s (codes "off"))) [
  | inl e ↦
      let same : s ≡ codes "off" = (bytes_eq_iff s (codes "off")).0 e in
      let h : z ∷ r ≡ b'f' ∷ b'f' ∷ b'o' ∷ [] = sym q ∙ ap reverse same in absurd (n cc)
  | inr e ↦ elim (Bool-cases (bytes_eq s [])) [
    | inl f ↦
        let same : s ≡ [] = (bytes_eq_iff s []).0 f in
        let h : z ∷ r ≡ [] = sym q ∙ ap reverse same in absurd cc
    | inr f ↦ rw (e, f) refl
  ]
]

ending_not_off :
    (z : ℕ) (r x y : Bytes)
    → reverse y ≡ z ∷ r
    → z ≢ b'f'
    → (bytes_eq (x ++ y) (codes "off") || bytes_eq (x ++ y) []) ≡ false
ending_not_off z r x y q n =
    not_off z (r ++ reverse x) (x ++ y) (backwards x y ∙ ap (λ t. t ++ reverse x) q) n

text_not_off :
    (u : Multiple) (x : Bytes)
    → u ≢ plain
    → (bytes_eq (x ++ text u) (codes "off") || bytes_eq (x ++ text u) []) ≡ false
text_not_off plain x n = absurd (n refl)
text_not_off b x n = ending_not_off b'b' _ x (text b) refl (λ h. omega (arith, h))
text_not_off k x n = ending_not_off b'k' _ x (text k) refl (λ h. omega (arith, h))
text_not_off kb x n = ending_not_off b'b' _ x (text kb) refl (λ h. omega (arith, h))
text_not_off m x n = ending_not_off b'm' _ x (text m) refl (λ h. omega (arith, h))
text_not_off mb x n = ending_not_off b'b' _ x (text mb) refl (λ h. omega (arith, h))
text_not_off g x n = ending_not_off b'g' _ x (text g) refl (λ h. omega (arith, h))
text_not_off gb x n = ending_not_off b'b' _ x (text gb) refl (λ h. omega (arith, h))

module _ (floats : Floats) (files : Files) where
  lower_size-percent :
      (x : Bytes) (p : floats.F64) (total : ℕ)
      → floats.parse x ≡ some p
      → floats.is_out_of_range p ≡ false
      → get_total_memory files ≡ ok total
      → lower_size floats files (x ++ codes "%") ≡ ok (floats.share total p)
  unfolding lower_size percentage is_prefix
  lower_size-percent x p total e r t =
      let q = backwards x (codes "%") in
      rw
        (
          not_off b'%' (reverse x) (x ++ codes "%") q (λ h. absurd (omega (arith, h))),
          q,
          reverse-reverse x,
          e,
          r,
          t,
        )
        refl

  lower_size-bytes : (s : Bytes) (n : ℕ) → parse_u64 s ≡ some n → lower_size floats files s ≡ ok n
  unfolding lower_size is_prefix
  lower_size-bytes s n e = go (reverse s) refl
    where
      go : (r : Bytes) → reverse s ≡ r → lower_size floats files s ≡ ok n
      go [] q =
          let nil : s ≡ [] = sym (reverse-reverse s) ∙ ap reverse q in
          absurd (let f : parse_u64 [] ≡ some n = (rw nil at e) in unfold parse_u64 in cc)
      go (z ∷ r) q =
          let (lo, hi) = parse_u64-last z n (reverse r) (rw (forwards z r s q) at e) in
          let e₁ : (b'%' == z) ≡ false = ground arith in
          let e₂ : (b'b' == z) ≡ false = ground arith in
          let e₃ : (b'k' == z) ≡ false = ground arith in
          let e₄ : (b'm' == z) ≡ false = ground arith in
          let e₅ : (b'g' == z) ≡ false = ground arith in
          rw (not_off z r s q (λ h. omega (arith, h)), q, e₁, e₂, e₃, e₄, e₅, e) refl

  lower_size-b :
      (x : Bytes) (i : ℕ)
      → b ≢ plain
      → parse_u64 (trim x) ≡ some i
      → lower_size floats files (x ++ text b) ≡ ok (u64 (i * 1))
  unfolding lower_size is_prefix
  lower_size-b x i ne e =
      let e₃ : is_prefix (b'k' ∷ []) (reverse x) ≡ false = not_ending b'k' i x (omega arith) e in
      let e₄ : is_prefix (b'm' ∷ []) (reverse x) ≡ false = not_ending b'm' i x (omega arith) e in
      let e₅ : is_prefix (b'g' ∷ []) (reverse x) ≡ false = not_ending b'g' i x (omega arith) e in
      rw (text_not_off b x ne, backwards x (text b), e₃, e₄, e₅, reverse-reverse x)
        (times_lem 1 i x e)

  lower_size-sized :
      (u : Multiple) (x : Bytes) (i : ℕ)
      → u ≢ plain
      → parse_u64 (trim x) ≡ some i
      → lower_size floats files (x ++ text u) ≡ ok (u64 (i * factor u))
  unfolding lower_size is_prefix
  lower_size-sized plain x i ne e = absurd (ne refl)
  lower_size-sized b x i ne e = lower_size-b x i ne e
  lower_size-sized k x i ne e =
      rw (text_not_off k x ne, backwards x (text k), reverse-reverse x) (times_lem (1024) i x e)
  lower_size-sized kb x i ne e =
      rw (text_not_off kb x ne, backwards x (text kb), reverse-reverse x) (times_lem (1024) i x e)
  lower_size-sized m x i ne e =
      rw (text_not_off m x ne, backwards x (text m), reverse-reverse x)
        (times_lem (1024 * 1024) i x e)
  lower_size-sized mb x i ne e =
      rw (text_not_off mb x ne, backwards x (text mb), reverse-reverse x)
        (times_lem (1024 * 1024) i x e)
  lower_size-sized g x i ne e =
      rw (text_not_off g x ne, backwards x (text g), reverse-reverse x)
        (times_lem (1024 * 1024 * 1024) i x e)
  lower_size-sized gb x i ne e =
      rw (text_not_off gb x ne, backwards x (text gb), reverse-reverse x)
        (times_lem (1024 * 1024 * 1024) i x e)

  Means-lower_size : (s : Bytes) (n : ℕ) → Means floats files s n → lower_size floats files s ≡ ok n
  Means-lower_size s n (off (inl e) z) = rw (e, z) (unfold lower_size bytes_eq in refl)
  Means-lower_size s n (off (inr e) z) = rw (e, z) (unfold lower_size bytes_eq in refl)
  Means-lower_size s n (percent x p total e q r t z) =
      rw (e, z) (lower_size-percent x p total q r t)
  Means-lower_size s n (bytes e) = lower_size-bytes s n e
  Means-lower_size s n (sized u x i ne e q z) = rw (e, z) (lower_size-sized u x i ne q)

  -- Whatever the text is and the files hold: a size is read exactly if the text, without the white space
  -- around it and in lower case, means it. `off` or nothing means 0; a percentage, whose number is in
  -- range, means that share of the total memory, if this is found; a number that fits into 64 bits means
  -- itself; and such a number in front of a unit, perhaps with white space around it, means its product
  -- with 1 for `b`, 1024 for `k` and `kb`, 1024 ^ 2 for `m` and `mb`, and 1024 ^ 3 for `g` and `gb`,
  -- modulo 2 ^ 64. No other text is read as a size.
  pub parse_size_iff :
      (s : Bytes) (n : ℕ)
      → (parse_size floats files s ≡ ok n) ↔ Means floats files (to_lowercase (trim s)) n
  unfolding parse_size
  parse_size_iff s n =
      (parse_size-Means floats files s n, Means-lower_size (to_lowercase (trim s)) n)
