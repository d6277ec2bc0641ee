-- ===== src/Size/Exact.antt =====
-- src/util/parse.rs: the size that is read from a printed number and a unit.
use rog.Prelude.{
  ℕ, ◌*◌, ◌%◌, ◌^◌, ◌<◌, ◌≡◌, ◌≢◌, refl, sym, ap, ◌∙◌, ◌==◌, bytes_eq, false, ◌||◌, some, [], ◌∷◌,
  ◌++◌, ok, arith, append-nil,
}
use mathlib.Core.List.{reverse, reverse-reverse}
use rog.Prelude.Word.{Bytes, codes}
use rog.Text.{to_string, parse_u64}
use rog.Text.Decimal.{AllDigits, to_string-AllDigits, to_string-ne-nil, parse_uint-to_string}
use rog.Text.Search.{is_prefix}
use rog.Size.{Floats, Files, u64, times, lower_size, parse_size}
use rog.Size.Printed.{
  Multiple, plain, b, k, kb, m, mb, g, gb, factor, text, AllDigits-Digits, to_lowercase-AllDigits,
  backwards, trim-digits, trim-sized,
}

times-digits : (n f : ℕ) → n < 2 ^ 64 → times f (to_string n) ≡ ok (u64 (n * f))
unfolding times parse_u64
times-digits n f h =
    rw
      (
        trim-digits (to_string n) (to_string-ne-nil n) (to_string-AllDigits n),
        parse_uint-to_string (2 ^ 64) n h,
      )
      refl

not_off :
    (x y : Bytes)
    → x ≢ []
    → AllDigits x
    → (bytes_eq (x ++ y) (codes "off") || bytes_eq (x ++ y) []) ≡ false
unfolding bytes_eq
not_off [] y n h = absurd (n refl)
not_off (c ∷ x) y n (lo, hi, h) = ground arith

module _ (floats : Floats) (files : Files) where
  lower_size-plain :
      (x : Bytes) (n : ℕ)
      → x ≢ []
      → AllDigits x
      → parse_u64 x ≡ some n
      → lower_size floats files (x ++ []) ≡ ok n
  unfolding lower_size is_prefix
  lower_size-plain x n ne h p =
      let d = AllDigits-Digits x ne h in
      let l = d.low in
      let u = d.high in
      let e₁ : (b'%' == d.last) ≡ false = ground arith in
      let e₂ : (b'b' == d.last) ≡ false = ground arith in
      let e₃ : (b'k' == d.last) ≡ false = ground arith in
      let e₄ : (b'm' == d.last) ≡ false = ground arith in
      let e₅ : (b'g' == d.last) ≡ false = ground arith in
      let e : reverse (x ++ []) ≡ d.last ∷ d.rest = ap reverse (append-nil x) ∙ d.backwards in
      let q : parse_u64 (x ++ []) ≡ some n = ap parse_u64 (append-nil x) ∙ p in
      rw (not_off x [] ne h, e, e₁, e₂, e₃, e₄, e₅, q) refl

  lower_size-b :
      (x : Bytes) (n : ℕ)
      → x ≢ []
      → AllDigits x
      → times 1 x ≡ ok n
      → lower_size floats files (x ++ text b) ≡ ok n
  unfolding lower_size is_prefix
  lower_size-b x n ne h t =
      let d = AllDigits-Digits x ne h in
      let l = d.low in
      let u = d.high in
      let e₃ : (b'k' == d.last) ≡ false = ground arith in
      let e₄ : (b'm' == d.last) ≡ false = ground arith in
      let e₅ : (b'g' == d.last) ≡ false = ground arith in
      let q : reverse (d.last ∷ d.rest) ≡ x = ap reverse (sym d.backwards) ∙ reverse-reverse x in
      rw (not_off x (text b) ne h, backwards x (text b), d.backwards, e₃, e₄, e₅, q) t

  lower_size-unit :
      (u : Multiple) (x : Bytes) (n : ℕ)
      → x ≢ []
      → AllDigits x
      → parse_u64 x ≡ some n
      → n < 2 ^ 64
      → ((f : ℕ) → times f x ≡ ok (u64 (n * f)))
      → lower_size floats files (x ++ text u) ≡ ok (u64 (n * factor u))
  unfolding lower_size is_prefix
  lower_size-unit plain x n ne h p hn t =
      lower_size-plain x n ne h p ∙ ap ok (let e : n ≡ u64 (n * 1) = omega arith in e)
  lower_size-unit b x n ne h p hn t = lower_size-b x (u64 (n * 1)) ne h (t 1)
  lower_size-unit k x n ne h p hn t =
      rw (not_off x (text k) ne h, backwards x (text k), reverse-reverse x) (t 1024)
  lower_size-unit kb x n ne h p hn t =
      rw (not_off x (text kb) ne h, backwards x (text kb), reverse-reverse x) (t 1024)
  lower_size-unit m x n ne h p hn t =
      rw (not_off x (text m) ne h, backwards x (text m), reverse-reverse x) (t (1024 * 1024))
  lower_size-unit mb x n ne h p hn t =
      rw (not_off x (text mb) ne h, backwards x (text mb), reverse-reverse x) (t (1024 * 1024))
  lower_size-unit g x n ne h p hn t =
      rw (not_off x (text g) ne h, backwards x (text g), reverse-reverse x) (t (1024 * 1024 * 1024))
  lower_size-unit gb x n ne h p hn t =
      rw (not_off x (text gb) ne h, backwards x (text gb), reverse-reverse x)
        (t (1024 * 1024 * 1024))

  -- A number below 2 ^ 64, printed in decimal with or without a unit, is read as the number times the
  -- unit's factor: 1 for bytes, and 1024, 1024 ^ 2 and 1024 ^ 3, modulo 2 ^ 64.
  pub parse_size-to_string :
      (n : ℕ) (u : Multiple)
      → n < 2 ^ 64
      → parse_size floats files (to_string n ++ text u) ≡ ok (n * factor u % 2 ^ 64)
  unfolding parse_size
  parse_size-to_string n u h =
      let a = to_string-AllDigits n in
      rw
        (
          trim-sized (to_string n) u (to_string-ne-nil n) a,
          to_lowercase-AllDigits (to_string n) u a,
        )
        (lower_size-unit u (to_string n) n (to_string-ne-nil n) a
          (unfold parse_u64 in parse_uint-to_string (2 ^ 64) n h) h (λ f. times-digits n f h))
