-- ===== src/Text/Decimal.antt =====
-- Decimal numbers: `to_string` and `str::parse::<u16>`.
use rog.Prelude.{
  ltb→le, ltb→lt, ℕ, zero, suc, ◌+◌, ◌-◌, ◌*◌, ◌/◌, ◌%◌, ◌<◌, ◌≤◌, ◌≡◌, ◌≢◌, refl, ◌∙◌, ltb, ◌==◌,
  false, none, some, [], ◌∷◌, ◌++◌, arith, Bool-cases, inl, inr,
}
use rog.Prelude.Word.{Bytes}
use rog.Text.{digits, to_string, parse_digits, parse_uint, parse_u16, rsplit_once}

abbrev pub AllDigits : Bytes → Type 0
AllDigits [] = Unit {0}
AllDigits (c ∷ cs) = (b'0' ≤ c) × (c ≤ b'9') × AllDigits cs

AllDigits-concat :
    (xs : Bytes) (c : ℕ) → AllDigits xs → b'0' ≤ c → c ≤ b'9' → AllDigits (xs ++ c ∷ [])
AllDigits-concat [] c h lo hi = (lo, hi, tt)
AllDigits-concat (x ∷ xs) c (l, u, h) lo hi = (l, u, AllDigits-concat xs c h lo hi)

digits-AllDigits : (fuel n : ℕ) → AllDigits (digits fuel n)
unfolding digits
digits-AllDigits zero n = tt
digits-AllDigits (suc fuel) n = elim (Bool-cases (ltb n 10)) [
  | inl small ↦ rw small (omega (arith, ltb→lt n 10 small))
  | inr large ↦ rw large (
      AllDigits-concat (digits fuel (n / 10)) (b'0' + n % 10) (digits-AllDigits fuel (n / 10))
        (omega arith) (omega arith))
]

pub to_string-AllDigits : (n : ℕ) → AllDigits (to_string n)
unfolding to_string
to_string-AllDigits n = digits-AllDigits (suc n) n

concat-ne-nil : (xs : Bytes) (c : ℕ) → xs ++ c ∷ [] ≢ []
concat-ne-nil [] c e = cc
concat-ne-nil (x ∷ xs) c e = cc

pub to_string-ne-nil : (n : ℕ) → to_string n ≢ []
unfolding to_string
to_string-ne-nil n = elim (Bool-cases (ltb n 10)) [
  | inl small ↦ rw small (λ e. cc)
  | inr large ↦ rw large (concat-ne-nil (digits n (n / 10)) (b'0' + n % 10))
]

parse_digits-append :
    (limit : ℕ) (xs ys : Bytes) (acc v : ℕ)
    → parse_digits limit acc xs ≡ some v
    → parse_digits limit acc (xs ++ ys) ≡ parse_digits limit v ys
unfolding parse_digits
parse_digits-append limit [] ys acc v h = ground arith
parse_digits-append limit (x ∷ xs) ys acc v h =
    ground (arith, parse_digits-append limit xs ys (acc * 10 + (x - b'0')) v)

parse_digits-digits :
    (limit fuel n : ℕ) → n < fuel → n < limit → parse_digits limit 0 (digits fuel n) ≡ some n
unfolding digits
parse_digits-digits limit zero n lt h = elim lt [ ]
parse_digits-digits limit (suc fuel) n lt h = elim (Bool-cases (ltb n 10)) [
  | inl small ↦ rw small (unfold parse_digits in ground arith)
  | inr large ↦ rw large (
      parse_digits-append limit (digits fuel (n / 10)) ((b'0' + n % 10) ∷ []) 0 (n / 10) (
        parse_digits-digits limit fuel (n / 10) (omega (arith, ltb→le n 10 large))
          (omega (arith, ltb→le n 10 large)))
      ∙ unfold parse_digits in ground arith)
]

parse_uint-AllDigits :
    (limit : ℕ) (xs : Bytes)
    → xs ≢ []
    → AllDigits xs
    → parse_uint limit xs ≡ parse_digits limit 0 xs
unfolding parse_uint
parse_uint-AllDigits limit [] ne h = absurd (ne refl)
parse_uint-AllDigits limit (c ∷ []) ne h = refl
parse_uint-AllDigits limit (c ∷ d ∷ cs) ne (lo, hi, h) =
    let e : (c == b'+') ≡ false = ground arith in rw e

-- The number that `parse` reads from a printed number.
pub parse_uint-to_string : (limit n : ℕ) → n < limit → parse_uint limit (to_string n) ≡ some n
parse_uint-to_string limit n h =
    parse_uint-AllDigits limit (to_string n) (to_string-ne-nil n) (to_string-AllDigits n)
    ∙ unfold to_string in parse_digits-digits limit (suc n) n (omega arith) h

pub parse_u16-to_string : (n : ℕ) → n < 65536 → parse_u16 (to_string n) ≡ some n
unfolding parse_u16
parse_u16-to_string n h = parse_uint-to_string 65536 n h

-- A separator that is no digit is not found in digits.
rsplit_once-AllDigits :
    (sep : ℕ) (xs : Bytes) → b'9' < sep → AllDigits xs → rsplit_once sep xs ≡ none
unfolding rsplit_once
rsplit_once-AllDigits sep [] h a = refl
rsplit_once-AllDigits sep (x ∷ xs) h (lo, hi, a) = ground (arith, rsplit_once-AllDigits sep xs h a)

pub rsplit_once-append :
    (sep : ℕ) (xs ys : Bytes)
    → b'9' < sep
    → AllDigits ys
    → rsplit_once sep (xs ++ sep ∷ ys) ≡ some (xs, ys)
unfolding rsplit_once
rsplit_once-append sep [] ys h a = ground (arith, rsplit_once-AllDigits sep ys h a)
rsplit_once-append sep (x ∷ xs) ys h a = rw (rsplit_once-append sep xs ys h a, rsplit_once)
