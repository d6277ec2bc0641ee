-- ===== src/Size/Printed.antt =====
-- src/util/parse.rs: what `trim` and `to_lowercase` make of a printed number and a unit.
use rog.Prelude.{
  ℕ, ◌*◌, ◌≤◌, ◌<◌, ◌≡◌, ◌≢◌, refl, sym, ap, ◌∙◌, ◌==◌, false, ◌&&◌, [], ◌∷◌, ◌++◌, arith,
  append-nil,
}
use mathlib.Core.List.{reverse, reverse-append, reverse-reverse}
use rog.Prelude.Word.{Bytes, codes}
use rog.Text.Decimal.{AllDigits}
use rog.Text.Search.{lower}
use rog.Text.Trim.{width, width_back, strip, trim}
use rog.Size.{to_lowercase}

pub data Multiple : Type 0 where
  plain b k kb m mb g gb : Multiple

abbrev pub factor : Multiple → ℕ
factor plain = 1
factor b = 1
factor k = 1024
factor kb = 1024
factor m = 1024 * 1024
factor mb = 1024 * 1024
factor g = 1024 * 1024 * 1024
factor gb = 1024 * 1024 * 1024

abbrev pub text : Multiple → Bytes
text plain = []
text b = codes "b"
text k = codes "k"
text kb = codes "kb"
text m = codes "m"
text mb = codes "mb"
text g = codes "g"
text gb = codes "gb"

-- The digits backwards: one digit and others.
pub record Digits (x : Bytes) : Type 0 where
  pub last : ℕ
  pub rest : Bytes
  pub backwards : reverse x ≡ last ∷ rest
  pub low : b'0' ≤ last
  pub high : last ≤ b'9'

AllDigits-append : (x y : Bytes) → AllDigits x → AllDigits y → AllDigits (x ++ y)
AllDigits-append [] y h h' = h'
AllDigits-append (c ∷ x) y (lo, hi, h) h' = (lo, hi, AllDigits-append x y h h')

reverse-AllDigits : (x : Bytes) → AllDigits x → AllDigits (reverse x)
reverse-AllDigits [] h = h
reverse-AllDigits (c ∷ x) (lo, hi, h) =
    rw (reverse-append (c ∷ []) x)
      (AllDigits-append (reverse x) (c ∷ []) (reverse-AllDigits x h) (lo, hi, tt))

Digits-of : (r x : Bytes) → reverse x ≡ r → x ≢ [] → AllDigits r → Digits x
Digits-of [] x e n h = absurd (n (sym (reverse-reverse x) ∙ ap reverse e))
Digits-of (d ∷ r) x e n (lo, hi, h) = record {
  last = d;
  rest = r;
  backwards = e;
  low = lo;
  high = hi;
}

pub AllDigits-Digits : (x : Bytes) → x ≢ [] → AllDigits x → Digits x
AllDigits-Digits x n h = Digits-of (reverse x) x refl n (reverse-AllDigits x h)

-- A text that begins and ends with an ASCII character that is no space is trimmed already.
width-solid : (a : ℕ) (s : Bytes) → b' ' < a → a < 128 → width (a ∷ s) ≡ 0
unfolding width
width-solid a [] lo hi = ground arith
width-solid a (b' ∷ []) lo hi = ground arith
width-solid a (b' ∷ c ∷ s) lo hi = ground arith

pub width_back-solid : (a : ℕ) (s : Bytes) → b' ' < a → a < 128 → width_back (a ∷ s) ≡ 0
unfolding width_back
width_back-solid a [] lo hi = ground arith
width_back-solid a (b' ∷ []) lo hi = ground arith
width_back-solid a (b' ∷ c ∷ s) lo hi = ground arith

pub strip-solid : (w : Bytes → ℕ) (a : ℕ) (s : Bytes) → w (a ∷ s) ≡ 0 → strip w 0 (a ∷ s) ≡ a ∷ s
unfolding strip
strip-solid w a s e = rw (strip, e) refl

trim-solid :
    (a z : ℕ) (s r : Bytes)
    → b' ' < a
    → a < 128
    → reverse (a ∷ s) ≡ z ∷ r
    → b' ' < z
    → z < 128
    → trim (a ∷ s) ≡ a ∷ s
unfolding trim
trim-solid a z s r lo hi e lo' hi' =
    rw
      (
        trim,
        strip-solid width a s (width-solid a s lo hi),
        e,
        strip-solid width_back z r (width_back-solid z r lo' hi'),
      )
      (ap reverse (sym e) ∙ reverse-reverse (a ∷ s))

to_lowercase-ascii : (a : ℕ) (s : Bytes) → a < 128 → to_lowercase (a ∷ s) ≡ lower a ∷ to_lowercase s
unfolding to_lowercase
to_lowercase-ascii a [] h = refl
to_lowercase-ascii a (b' ∷ []) h = refl
to_lowercase-ascii a (b' ∷ c ∷ s) h =
    let e : (a == 0xe2 && b' == 0x84 && c == 0xaa) ≡ false = ground arith in
    rw (to_lowercase, e) refl

to_lowercase-text : (u : Multiple) → to_lowercase (text u) ≡ text u
unfolding to_lowercase
to_lowercase-text plain = refl
to_lowercase-text b = refl
to_lowercase-text k = refl
to_lowercase-text kb = refl
to_lowercase-text m = refl
to_lowercase-text mb = refl
to_lowercase-text g = refl
to_lowercase-text gb = refl

pub to_lowercase-AllDigits :
    (x : Bytes) (u : Multiple) → AllDigits x → to_lowercase (x ++ text u) ≡ x ++ text u
to_lowercase-AllDigits [] u h = to_lowercase-text u
to_lowercase-AllDigits (c ∷ x) u (lo, hi, h) =
    let e : lower c ≡ c = ground arith in
    to_lowercase-ascii c (x ++ text u) (omega arith) ∙ rw (e, to_lowercase-AllDigits x u h) refl

pub backwards : (x y : Bytes) → reverse (x ++ y) ≡ reverse y ++ reverse x
backwards x y = reverse-append x y

pub trim-digits : (x : Bytes) → x ≢ [] → AllDigits x → trim x ≡ x
trim-digits [] n h = absurd (n refl)
trim-digits (c ∷ x) n (lo, hi, h) =
    let d = AllDigits-Digits (c ∷ x) n (lo, hi, h) in
    trim-solid c d.last x d.rest (omega arith) (omega arith) d.backwards
      (let l = d.low in omega arith) (let l = d.high in omega arith)

trim-unit :
    (c z : ℕ) (x y r : Bytes)
    → (b'0' ≤ c) × (c ≤ b'9')
    → reverse y ≡ z ∷ r
    → (b' ' < z) × (z < 128)
    → trim ((c ∷ x) ++ y) ≡ (c ∷ x) ++ y
trim-unit c z x y r (lo, hi) e (lo', hi') =
    trim-solid c z (x ++ y) (r ++ reverse (c ∷ x)) (omega arith) (omega arith)
      (reverse-append (c ∷ x) y ∙ ap (λ t. t ++ reverse (c ∷ x)) e) lo' hi'

pub trim-sized :
    (x : Bytes) (u : Multiple) → x ≢ [] → AllDigits x → trim (x ++ text u) ≡ x ++ text u
trim-sized [] u n h = absurd (n refl)
trim-sized (c ∷ x) plain n h = rw (append-nil (c ∷ x)) (trim-digits (c ∷ x) n h)
trim-sized (c ∷ x) b n (lo, hi, h) =
    trim-unit c b'b' x (text b) _ (lo, hi) refl (omega arith, omega arith)
trim-sized (c ∷ x) k n (lo, hi, h) =
    trim-unit c b'k' x (text k) _ (lo, hi) refl (omega arith, omega arith)
trim-sized (c ∷ x) kb n (lo, hi, h) =
    trim-unit c b'b' x (text kb) _ (lo, hi) refl (omega arith, omega arith)
trim-sized (c ∷ x) m n (lo, hi, h) =
    trim-unit c b'm' x (text m) _ (lo, hi) refl (omega arith, omega arith)
trim-sized (c ∷ x) mb n (lo, hi, h) =
    trim-unit c b'b' x (text mb) _ (lo, hi) refl (omega arith, omega arith)
trim-sized (c ∷ x) g n (lo, hi, h) =
    trim-unit c b'g' x (text g) _ (lo, hi) refl (omega arith, omega arith)
trim-sized (c ∷ x) gb n (lo, hi, h) =
    trim-unit c b'b' x (text gb) _ (lo, hi) refl (omega arith, omega arith)
