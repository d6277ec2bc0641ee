-- ===== src/Size/Accepted.antt =====
-- src/util/parse.rs: which texts `parse_size` accepts, and what they mean.
use rog.Prelude.{
  ℕ, ◌*◌, ◌%◌, ◌^◌, ◌≡◌, ◌≢◌, refl, sym, ap, ◌∙◌, ◌⊎◌, inl, inr, if◌then◌else◌, bytes_eq,
  bytes_eq_iff, Bool, true, false, ◌&&◌, ◌||◌, ◌==◌, Option, none, some, [], ◌∷◌, ◌++◌, ok,
  ErrorKind, String, invalid_input, ok_or, >>=-eq-ok, drop, length, arith,
}
use mathlib.Core.List.{reverse, reverse-append, reverse-reverse}
use rog.Prelude.Word.{Bytes, codes}
use rog.Text.{parse_u64}
use rog.Text.Search.{is_prefix}
use rog.Text.Trim.{trim, ends_with, cut}
use rog.Size.{
  Floats, Files, u64, to_lowercase, times, has_unit, unit_end, percentage, lower_size, parse_size,
  get_total_memory,
}
use rog.Size.Printed.{Multiple, plain, b, k, kb, m, mb, g, gb, factor, text}

-- What a text in lower case without white space around it means as a size.
pub data Means (floats : Floats) (files : Files) (s : Bytes) (n : ℕ) : Type 0 where
  off : (s ≡ codes "off") ⊎ (s ≡ []) → n ≡ 0 → Means floats files s n
  -- A percentage that is in range, of the memory.
  percent :
      (x : Bytes) (p : floats.F64) (total : ℕ)
      → s ≡ x ++ codes "%"
      → floats.parse x ≡ some p
      → floats.is_out_of_range p ≡ false
      → get_total_memory files ≡ ok total
      → n ≡ floats.share total p
      → Means floats files s n
  bytes : parse_u64 s ≡ some n → Means floats files s n
  -- A number and its unit, perhaps with white space between them.
  sized :
      (u : Multiple) (x : Bytes) (i : ℕ)
      → u ≢ plain
      → s ≡ x ++ text u
      → parse_u64 (trim x) ≡ some i
      → n ≡ i * factor u % 2 ^ 64
      → Means floats files s n

is_prefix-append : (p s : Bytes) → is_prefix p s ≡ true → s ≡ p ++ drop (length p) s
unfolding is_prefix
is_prefix-append [] s e = refl
is_prefix-append (c ∷ p) [] e = absurd (cc)
is_prefix-append (c ∷ p) (d ∷ s) e =
    let (h, t) = both (c == d) (is_prefix p s) e in
    let q : d ≡ c = ground (arith, h) in
    ap (λ x. x ∷ s) q ∙ ap (λ x. c ∷ x) (is_prefix-append p s t)
  where
    both : (x y : Bool) → (x && y) ≡ true → (x ≡ true) × (y ≡ true)
    both true y h = (refl, h)
    both false y h = absurd (cc)

ends_with-cut :
    (p s : Bytes) (n : ℕ) → length (reverse p) ≡ n → ends_with p s ≡ true → s ≡ cut n s ++ p
ends_with-cut p s n len e =
    let back : reverse s ≡ reverse p ++ drop n (reverse s) =
      is_prefix-append (reverse p) (reverse s) e ∙ ap (λ i. reverse p ++ drop i (reverse s)) len in
    sym (reverse-reverse s)
    ∙ ap reverse back
    ∙ reverse-append (reverse p) (drop n (reverse s))
    ∙ ap (λ x. cut n s ++ x) (reverse-reverse p)

if-eq {ℓ} :
    {A : Type ℓ} (c : Bool) (x y a : A)
    → (if c then x else y) ≡ a
    → ((c ≡ true) × (x ≡ a)) ⊎ ((c ≡ false) × (y ≡ a))
if-eq true x y a e = inl (refl, e)
if-eq false x y a e = inr (refl, e)

or-eq : (x y : Bool) → (x || y) ≡ true → (x ≡ true) ⊎ ((x ≡ false) × (y ≡ true))
or-eq true y e = inl refl
or-eq false y e = inr (refl, e)

ok_or-eq {ℓ} :
    {A : Type ℓ} (o : Option A) (kind : ErrorKind) (why : String) (a : A)
    → ok_or o kind why ≡ ok a
    → o ≡ some a
ok_or-eq none kind why a e = absurd (cc)
ok_or-eq (some x) kind why a e = cc

times-eq :
    (f n : ℕ) (x : Bytes)
    → times f x ≡ ok n
    → (i : ℕ) × (parse_u64 (trim x) ≡ some i) × (n ≡ i * f % 2 ^ 64)
unfolding times
times-eq f n x e =
    let (i, e₁, f₁) =
      >>=-eq-ok (ok_or (parse_u64 (trim x)) invalid_input "invalid number format") _ e in
    let q : u64 (i * f) ≡ n = cc in (i, ok_or-eq (parse_u64 (trim x)) invalid_input _ i e₁, sym q)

module _ (floats : Floats) (files : Files) where
  of_unit :
      (u : Multiple) (s x : Bytes) (n : ℕ)
      → u ≢ plain
      → s ≡ x ++ text u
      → times (factor u) x ≡ ok n
      → Means floats files s n
  of_unit u s x n ne e t = let (i, p, q) = times-eq (factor u) n x t in sized u x i ne e p q

  -- A unit with or without its `b`.
  of_units :
      (long short : Multiple) (s : Bytes) (n f : ℕ)
      → (long ≢ plain) × (short ≢ plain)
      → (factor long ≡ f) × (factor short ≡ f)
      → (length (reverse (text long)) ≡ 2) × (length (reverse (text short)) ≡ 1)
      → has_unit (text long) (text short) s ≡ true
      → times f (cut (unit_end (text long) s) s) ≡ ok n
      → Means floats files s n
  of_units long short s n f (nl, ns) (fl, fs) (ll, ls) h t =
      elim (or-eq (ends_with (text long) s) (ends_with (text short) s) h) [
        | inl e ↦
            of_unit long s (cut 2 s) n nl (ends_with-cut (text long) s 2 ll e)
              (let q = rw e at t in rw fl q)
        | inr (e, e') ↦
            of_unit short s (cut 1 s) n ns (ends_with-cut (text short) s 1 ls e')
              (let q = rw e at t in rw fs q)
      ]

  of_percent :
      (s x : Bytes) (n : ℕ)
      → s ≡ x ++ codes "%"
      → percentage floats files x ≡ ok n
      → Means floats files s n
  unfolding percentage
  of_percent s x n e h =
      let (p, e₁, f₁) =
        >>=-eq-ok (ok_or (floats.parse x) invalid_input "invalid percentage format") _ h in
      elim (if-eq (floats.is_out_of_range p) _ _ (ok n) f₁) [
        | inl (out, bad) ↦ absurd (cc)
        | inr (range, good) ↦
            let (total, e₂, f₂) = >>=-eq-ok (get_total_memory files) _ good in
            percent x p total e (ok_or-eq (floats.parse x) invalid_input _ p e₁) range e₂ (cc)
      ]

  off-eq :
      (s : Bytes)
      → (bytes_eq s (codes "off") || bytes_eq s []) ≡ true
      → (s ≡ codes "off") ⊎ (s ≡ [])
  off-eq s e = elim (or-eq (bytes_eq s (codes "off")) (bytes_eq s []) e) [
    | inl h ↦ inl ((bytes_eq_iff s (codes "off")).0 h)
    | inr (h, h') ↦ inr ((bytes_eq_iff s []).0 h')
  ]

  -- The tests behind those for `off`, a percentage and kilobytes.
  lower_size-rest :
      (s : Bytes) (n : ℕ)
      → (if has_unit (codes "mb") (codes "m") s
          then times (1024 * 1024) (cut (unit_end (codes "mb") s) s)
          else if has_unit (codes "gb") (codes "g") s
          then times (1024 * 1024 * 1024) (cut (unit_end (codes "gb") s) s)
          else if ends_with (codes "b") s
          then times 1 (cut 1 s)
          else ok_or (parse_u64 s) invalid_input "invalid size format")
        ≡ ok n
      → Means floats files s n
  lower_size-rest s n e = elim (if-eq (has_unit (codes "mb") (codes "m") s) _ _ (ok n) e) [
    | inl (h, t) ↦
        of_units mb m s n (1024 * 1024) ((λ q. cc), (λ q. cc)) (refl, refl) (refl, refl) h t
    | inr (_, e₁) ↦ elim (if-eq (has_unit (codes "gb") (codes "g") s) _ _ (ok n) e₁) [
      | inl (h, t) ↦
          of_units gb g s n (1024 * 1024 * 1024) ((λ q. cc), (λ q. cc)) (refl, refl) (refl, refl) h
            t
      | inr (_, e₂) ↦ elim (if-eq (ends_with (codes "b") s) _ _ (ok n) e₂) [
        | inl (h, t) ↦ of_unit b s (cut 1 s) n (λ q. cc) (ends_with-cut (codes "b") s 1 refl h) t
        | inr (_, e₃) ↦ bytes (ok_or-eq (parse_u64 s) invalid_input _ n e₃)
      ]
    ]
  ]

  lower_size-Means : (s : Bytes) (n : ℕ) → lower_size floats files s ≡ ok n → Means floats files s n
  unfolding lower_size
  lower_size-Means s n e = elim (if-eq (bytes_eq s (codes "off") || bytes_eq s []) _ _ (ok n) e) [
    | inl (h, t) ↦ off (off-eq s h) (cc)
    | inr (_, e₁) ↦ elim (if-eq (ends_with (codes "%") s) _ _ (ok n) e₁) [
      | inl (h, t) ↦ of_percent s (cut 1 s) n (ends_with-cut (codes "%") s 1 refl h) t
      | inr (_, e₂) ↦ elim (if-eq (has_unit (codes "kb") (codes "k") s) _ _ (ok n) e₂) [
        | inl (h, t) ↦ of_units kb k s n 1024 ((λ q. cc), (λ q. cc)) (refl, refl) (refl, refl) h t
        | inr (_, e₃) ↦ lower_size-rest s n e₃
      ]
    ]
  ]

  -- A size that is read is what the text means, without the white space around it and in lower case.
  pub parse_size-Means :
      (s : Bytes) (n : ℕ)
      → parse_size floats files s ≡ ok n
      → Means floats files (to_lowercase (trim s)) n
  unfolding parse_size
  parse_size-Means s n e = lower_size-Means (to_lowercase (trim s)) n e
