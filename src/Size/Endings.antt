-- ===== src/Size/Endings.antt =====
-- src/util/parse.rs: the last byte of a text that holds a number is a digit, also behind `trim`.
use rog.Prelude.{
  ℕ, zero, suc, ◌+◌, ◌-◌, ◌*◌, ◌^◌, ◌≤◌, ◌<◌, ◌≡◌, refl, sym, ap, ◌∙◌, ◌==◌, false, Bool-cases, inl,
  inr, ◌⊎◌, some, [], ◌∷◌, ◌++◌, arith,
}
use mathlib.Core.List.{reverse, reverse-append, reverse-reverse}
use rog.Prelude.Word.{Bytes}
use rog.Text.{is_digit, parse_digits, parse_uint, parse_u64}
use rog.Text.Search.{is_prefix}
use rog.Text.Trim.{width, width_back, strip, trim}
use rog.Size.Printed.{width_back-solid, strip-solid}

abbrev pub IsDigit : ℕ → Type 0
IsDigit c = (b'0' ≤ c) × (c ≤ b'9')

parse_digits-cons :
    (limit acc c i : ℕ) (s : Bytes)
    → parse_digits limit acc (c ∷ s) ≡ some i
    → IsDigit c × (parse_digits limit (acc * 10 + (c - b'0')) s ≡ some i)
unfolding parse_digits is_digit
parse_digits-cons limit acc c i s e = ground arith

parse_digits-last :
    (limit acc z i : ℕ) (s : Bytes) → parse_digits limit acc (s ++ z ∷ []) ≡ some i → IsDigit z
parse_digits-last limit acc z i [] e = (parse_digits-cons limit acc z i [] e).0
parse_digits-last limit acc z i (c ∷ s) e =
    parse_digits-last limit (acc * 10 + (c - b'0')) z i s
      (parse_digits-cons limit acc c i (s ++ z ∷ []) e).1

parse_uint-last : (limit z i : ℕ) (s : Bytes) → parse_uint limit (s ++ z ∷ []) ≡ some i → IsDigit z
unfolding parse_uint
parse_uint-last limit z i [] e = parse_digits-last limit 0 z i [] e
parse_uint-last limit z i (c ∷ []) e = elim (Bool-cases (c == b'+')) [
  | inl b ↦ parse_digits-last limit 0 z i [] (rw b at e)
  | inr b ↦ parse_digits-last limit 0 z i (c ∷ []) (rw b at e)
]
parse_uint-last limit z i (c ∷ d ∷ s) e = elim (Bool-cases (c == b'+')) [
  | inl b ↦ parse_digits-last limit 0 z i (d ∷ s) (rw b at e)
  | inr b ↦ parse_digits-last limit 0 z i (c ∷ d ∷ s) (rw b at e)
]

pub parse_u64-last : (z i : ℕ) (s : Bytes) → parse_u64 (s ++ z ∷ []) ≡ some i → IsDigit z
unfolding parse_u64
parse_u64-last z i s e = parse_uint-last (2 ^ 64) z i s e

abbrev Ends : ℕ → Bytes → Type 0
Ends z t = (t ≡ []) ⊎ ((u : Bytes) × (t ≡ u ++ z ∷ []))

stripped-last :
    (n z : ℕ) (t : Bytes) (rest : ℕ → Bytes)
    → (u : Bytes) × (t ≡ u ++ z ∷ [])
    → ((k : ℕ) → Ends z (rest k))
    → Ends z (elim n [ zero ↦ t | suc k ↦ rest k ])
stripped-last zero z t rest h r = inr h
stripped-last (suc k) z t rest h r = r k

-- What `strip` leaves is nothing, or ends as the text does.
strip-last :
    (w : Bytes → ℕ) (n z : ℕ) (s : Bytes)
    → (strip w n (s ++ z ∷ []) ≡ []) ⊎ ((u : Bytes) × (strip w n (s ++ z ∷ []) ≡ u ++ z ∷ []))
unfolding strip
strip-last w (suc n) z [] = inl refl
strip-last w (suc n) z (c ∷ s) = strip-last w n z s
strip-last w zero z [] =
    stripped-last (w (z ∷ [])) z (z ∷ []) (λ k. strip w k []) ([], refl) (λ k. inl refl)
strip-last w zero z (c ∷ s) =
    stripped-last (w (c ∷ s ++ z ∷ [])) z (c ∷ s ++ z ∷ []) (λ k. strip w k (s ++ z ∷ []))
      (c ∷ s, refl) (λ k. strip-last w k z s)

-- A last character that is no space is still the last one behind `trim`, unless nothing is left.
trim-last :
    (z : ℕ) (s : Bytes)
    → b' ' < z
    → z < 128
    → (trim (s ++ z ∷ []) ≡ []) ⊎ ((u : Bytes) × (trim (s ++ z ∷ []) ≡ u ++ z ∷ []))
unfolding trim
trim-last z s lo hi = elim (strip-last width 0 z s) [
  | inl e ↦ inl (rw (trim, e) (unfold strip in refl))
  | inr (u, e) ↦
      let q : reverse (u ++ z ∷ []) ≡ z ∷ reverse u = reverse-append u (z ∷ []) in
      let back : reverse (z ∷ reverse u) ≡ u ++ z ∷ [] =
        ap reverse (sym q) ∙ reverse-reverse (u ++ z ∷ []) in
      inr (
        u,
        rw (trim, e, q, strip-solid width_back z (reverse u) (width_back-solid z (reverse u) lo hi))
            back,
      )
]

trimmed-last :
    (z i : ℕ) (s : Bytes) → b' ' < z → z < 128 → parse_u64 (trim (s ++ z ∷ [])) ≡ some i → IsDigit z
unfolding parse_u64
trimmed-last z i s lo hi e = elim (trim-last z s lo hi) [
  | inl q ↦ absurd (let f : parse_u64 [] ≡ some i = (rw q at e) in cc)
  | inr (u, q) ↦ parse_u64-last z i u (rw q at e)
]

pub forwards : (z : ℕ) (r s : Bytes) → reverse s ≡ z ∷ r → s ≡ reverse r ++ z ∷ []
forwards z r s e = sym (reverse-reverse s) ∙ ap reverse e ∙ reverse-append (z ∷ []) r

-- A character that is no space and no digit.
abbrev pub IsLetter : ℕ → Type 0
IsLetter c = (b'9' < c) × (c < 128)

pub not_ending :
    (c i : ℕ) (s : Bytes)
    → IsLetter c
    → parse_u64 (trim s) ≡ some i
    → is_prefix (c ∷ []) (reverse s) ≡ false
unfolding is_prefix
not_ending c i s (lo, hi) e = go (reverse s) refl
  where
    go : (r : Bytes) → reverse s ≡ r → is_prefix (c ∷ []) r ≡ false
    go [] q = refl
    go (z ∷ r) q = elim (Bool-cases (c == z)) [
      | inl b ↦
          let same : c ≡ z = ground (arith, b) in
          let p : parse_u64 (trim (reverse r ++ z ∷ [])) ≡ some i = (rw (forwards z r s q) at e) in
          let d = trimmed-last z i (reverse r) (omega arith) (omega arith) p in
          absurd (omega (arith, d.1))
      | inr b ↦ rw b refl
    ]
