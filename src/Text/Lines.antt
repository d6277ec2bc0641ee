-- ===== src/Text/Lines.antt =====
-- Laws of the searches: what `find` finds, and how a text falls into lines.
use rog.Prelude.{
  ℕ, ◌≡◌, ◌≢◌, refl, sym, ap, ◌==◌, false, ◌&&◌, Bool-cases, inl, inr, Option, none, some, List, [],
  ◌∷◌, ◌++◌, arith,
}
use mathlib.Core.Path.{subst}
use rog.Prelude.Word.{Bytes}
use rog.Text.Search.{is_prefix, find, prepend, split_lines, onto_lines}

abbrev crlf : Bytes
crlf = 13 ∷ 10 ∷ []

-- A text in which no carriage return stands before a line feed.
abbrev pub Line : Bytes → Type 0
Line [] = Unit {0}
Line (b ∷ []) = Unit {0}
Line (b ∷ c ∷ bs) = ((b == 13 && c == 10) ≡ false) × Line (c ∷ bs)

abbrev pub Lacks : ℕ → Bytes → Type 0
Lacks x [] = Unit {0}
Lacks x (b ∷ bs) = (b ≢ x) × Lacks x bs

pub Lacks-Line : (l : Bytes) → Lacks 13 l → Line l
Lacks-Line [] h = tt
Lacks-Line (b ∷ []) h = tt
Lacks-Line (b ∷ c ∷ bs) (n, h) = (ground (arith, n), Lacks-Line (c ∷ bs) h)

Line-tail : (b : ℕ) (l : Bytes) → Line (b ∷ l) → Line l
Line-tail b [] h = tt
Line-tail b (c ∷ l) h = h.1

-- A text has a line.
lines-cons : (y : Bytes) → (l : Bytes) × (ls : List Bytes) × (split_lines y ≡ l ∷ ls)
unfolding split_lines
lines-cons [] = ([], [], refl)
lines-cons (b ∷ y) = let (l, ls, e) = lines-cons y in put b l ls (split_lines y) e
  where
    put :
        (b : ℕ) (l : Bytes) (ls s : List Bytes)
        → s ≡ l ∷ ls
        → (l' : Bytes) × (ls' : List Bytes) × (onto_lines b s ≡ l' ∷ ls')
    put b [] ls s e = (b ∷ [], ls, rw e refl)
    put b (c ∷ l) ls s e = elim (Bool-cases (b == 13 && c == 10)) [
      | inl h ↦ ([], l ∷ ls, rw (e, h) refl)
      | inr h ↦ (b ∷ c ∷ l, ls, rw (e, h) refl)
    ]

lines-crlf : (y : Bytes) → split_lines (13 ∷ 10 ∷ y) ≡ [] ∷ split_lines y
unfolding split_lines
lines-crlf y = let (l, ls, e) = lines-cons y in go l ls (split_lines y) e
  where
    go : (l : Bytes) (ls s : List Bytes) → s ≡ l ∷ ls → onto_lines 13 (onto_lines 10 s) ≡ [] ∷ s
    go [] ls s e = rw e refl
    go (c ∷ l) ls s e = rw e refl

-- The first line is split off.
pub split_lines-Line : (f y : Bytes) → Line f → split_lines (f ++ (13 ∷ 10 ∷ y)) ≡ f ∷ split_lines y
unfolding split_lines
split_lines-Line [] y h = lines-crlf y
split_lines-Line (b ∷ []) y h = ap (onto_lines b) (lines-crlf y)
split_lines-Line (b ∷ c ∷ f) y h = rw (split_lines-Line (c ∷ f) y h.1) (rw h.0 refl)

-- Where `find` finds the end of a line.
pub find-Line : (f y : Bytes) → Line f → find crlf (f ++ (13 ∷ 10 ∷ y)) ≡ some (f, 13 ∷ 10 ∷ y)
unfolding find
find-Line [] y h = refl
find-Line (b ∷ []) y h = ground arith
find-Line (b ∷ c ∷ f) y h = rw (find-Line (c ∷ f) y h.1) (ground arith)

pub record FoundLine (s f behind : Bytes) : Type 0 where
  pub is_line : Line f
  pub rest : Bytes
  pub behind_is : behind ≡ 13 ∷ 10 ∷ rest
  pub whole : s ≡ f ++ behind

-- A step of `find`.
prepend-eq-some :
    (b : ℕ) (o : Option (Bytes × Bytes)) (f behind : Bytes)
    → prepend b o ≡ some (f, behind)
    → (f' : Bytes) × (o ≡ some (f', behind)) × (f ≡ b ∷ f')
prepend-eq-some b none f behind e = absurd (cc)
prepend-eq-some b (some (f', x)) f behind e = (f', cc, cc)

extend-Line :
    (b c : ℕ) (s f behind : Bytes)
    → is_prefix crlf (b ∷ c ∷ s) ≡ false
    → FoundLine (c ∷ s) f behind
    → Line (b ∷ f)
unfolding is_prefix
extend-Line b c s [] behind n w = tt
extend-Line b c s (d ∷ f) behind n w = (ground (arith, n, w.whole), w.is_line)

pub find-FoundLine : (s f behind : Bytes) → find crlf s ≡ some (f, behind) → FoundLine s f behind
unfolding find is_prefix
find-FoundLine [] f behind e = absurd (cc)
find-FoundLine (b ∷ []) f behind e = absurd (ground arith)
find-FoundLine (b ∷ c ∷ s) f behind e = elim (Bool-cases (is_prefix crlf (b ∷ c ∷ s))) [
  | inl h ↦
      let p : ◌≡◌ {A = Option (Bytes × Bytes)} (some ([], b ∷ c ∷ s)) (some (f, behind)) =
        ground (arith, h, e) in
      let f_is : [] ≡ f = cc in
      let b_is : behind ≡ 13 ∷ 10 ∷ s = ground (arith, h, p) in
      record { is_line = subst Line f_is tt; rest = s; behind_is = b_is; whole = cc }
  | inr h ↦
      let p : prepend b (find crlf (c ∷ s)) ≡ some (f, behind) = ground (arith, h, e) in
      let (f', q, f_is) = prepend-eq-some b (find crlf (c ∷ s)) f behind p in
      let w = find-FoundLine (c ∷ s) f' behind q in
      record {
        is_line = subst Line (sym f_is) (extend-Line b c s f' behind h w);
        rest = w.rest;
        behind_is = w.behind_is;
        whole = rw (f_is, w.whole) refl;
      }
]
