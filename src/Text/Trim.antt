-- ===== src/Text/Trim.antt =====
-- `str::trim`, `str::split_whitespace` and `str::ends_with`. White space is that of Unicode.
use rog.Prelude.{ℕ, zero, suc, leb, ◌==◌, if◌then◌else◌, Bool, ◌&&◌, ◌||◌, List, [], ◌∷◌, drop}
use mathlib.Core.List.{reverse}
use rog.Prelude.Word.{Bytes}
use rog.Text.Search.{is_prefix, onto_first}

abbrev is_space : ℕ → Bool
is_space b = leb 9 b && leb b 13 || b == b' '

abbrev is_space_2 : ℕ → ℕ → Bool
is_space_2 a b = a == 0xc2 && (b == 0x85 || b == 0xa0)

abbrev is_space_3 : ℕ → ℕ → ℕ → Bool
is_space_3 a b c =
    a == 0xe1 && b == 0x9a && c == 0x80
    || a == 0xe2 && b == 0x80 && (leb 0x80 c && leb c 0x8a || c == 0xa8 || c == 0xa9 || c == 0xaf)
    || a == 0xe2 && b == 0x81 && c == 0x9f
    || a == 0xe3 && b == 0x80 && c == 0x80

-- The bytes of the white space with which a text begins, and that of a reversed one.
unfoldable pub width : Bytes → ℕ
width [] = 0
width (a ∷ []) = if is_space a then 1 else 0
width (a ∷ b ∷ []) = if is_space a then 1 else if is_space_2 a b then 2 else 0
width (a ∷ b ∷ c ∷ s) =
    if is_space a then 1 else if is_space_2 a b then 2 else if is_space_3 a b c then 3 else 0

unfoldable pub width_back : Bytes → ℕ
width_back [] = 0
width_back (a ∷ []) = if is_space a then 1 else 0
width_back (b ∷ a ∷ []) = if is_space b then 1 else if is_space_2 a b then 2 else 0
width_back (c ∷ b ∷ a ∷ s) =
    if is_space c then 1 else if is_space_2 b c then 2 else if is_space_3 a b c then 3 else 0

-- Without the white space in front; the first argument is the bytes of it that are still to go.
unfoldable pub strip : (Bytes → ℕ) → ℕ → Bytes → Bytes
strip width n [] = []
strip width (suc k) (b ∷ s) = strip width k s
strip width zero (b ∷ s) = elim (width (b ∷ s)) [ zero ↦ b ∷ s | suc k ↦ strip width k s ]

unfoldable pub trim : Bytes → Bytes
unfolding width width_back strip
trim s = reverse (strip width_back 0 (reverse (strip width 0 s)))

pieces : ℕ → Bytes → List Bytes
unfolding width
pieces n [] = [] ∷ []
pieces (suc k) (b ∷ s) = pieces k s
pieces zero (b ∷ s) = elim (width (b ∷ s)) [
  | zero ↦ onto_first b (pieces zero s)
  | suc k ↦ [] ∷ pieces k s
]

abbrev non_empty : List Bytes → List Bytes
non_empty [] = []
non_empty ([] ∷ ps) = non_empty ps
non_empty ((b ∷ p) ∷ ps) = (b ∷ p) ∷ non_empty ps

unfoldable pub split_whitespace : Bytes → List Bytes
unfolding pieces
split_whitespace s = non_empty (pieces 0 s)

abbrev pub ends_with : Bytes → Bytes → Bool
ends_with p s = is_prefix (reverse p) (reverse s)

-- All but the last bytes.
abbrev pub cut : ℕ → Bytes → Bytes
cut n s = reverse (drop n (reverse s))
