-- ===== src/Text/Search.antt =====
-- The searches of the standard library in a text, which is its UTF-8 bytes: `starts_with`, `contains`,
-- `find`, `split` and `windows`.
use rog.Prelude.{
  ℕ, ◌+◌, leb, ◌==◌, if◌then◌else◌, Bool, true, false, ◌&&◌, ◌||◌, Option, none, some, List, [],
  ◌∷◌,
}
use rog.Prelude.Word.{Bytes}

unfoldable pub is_prefix : Bytes → Bytes → Bool
is_prefix [] s = true
is_prefix (p ∷ ps) [] = false
is_prefix (p ∷ ps) (b ∷ bs) = p == b && is_prefix ps bs

unfoldable pub contains : Bytes → Bytes → Bool
unfolding is_prefix
contains p [] = is_prefix p []
contains p (b ∷ bs) = is_prefix p (b ∷ bs) || contains p bs

abbrev pub prepend : ℕ → Option (Bytes × Bytes) → Option (Bytes × Bytes)
prepend b none = none
prepend b (some (before, behind)) = some (b ∷ before, behind)

-- The text before the first occurrence of a text that is not empty, and from there on.
unfoldable pub find : Bytes → Bytes → Option (Bytes × Bytes)
unfolding is_prefix
find p [] = none
find p (b ∷ bs) =
    let rest = prepend b (find p bs) in if is_prefix p (b ∷ bs) then some ([], b ∷ bs) else rest

abbrev pub onto_first : ℕ → List Bytes → List Bytes
onto_first b [] = []
onto_first b (l ∷ ls) = (b ∷ l) ∷ ls

-- `split(" ")`.
unfoldable pub split_spaces : Bytes → List Bytes
split_spaces [] = [] ∷ []
split_spaces (b ∷ bs) =
    let rest = split_spaces bs in if b == b' ' then [] ∷ rest else onto_first b rest

-- A byte in front of the lines: a carriage return ends a line where the next one begins with a line
-- feed.
abbrev pub onto_lines : ℕ → List Bytes → List Bytes
onto_lines b [] = []
onto_lines b ([] ∷ ls) = (b ∷ []) ∷ ls
onto_lines b ((c ∷ l) ∷ ls) = if b == 13 && c == 10 then [] ∷ l ∷ ls else (b ∷ c ∷ l) ∷ ls

-- `split("\r\n")`.
unfoldable pub split_lines : Bytes → List Bytes
split_lines [] = [] ∷ []
split_lines (b ∷ bs) = onto_lines b (split_lines bs)

abbrev pub lower : ℕ → ℕ
lower b = if leb b'A' b && leb b b'Z' then b + 32 else b

-- `to_lowercase` on ASCII letters. Other characters stay as they are here; none of them turns a text
-- into one that begins with `via:`, which is all that the program looks for.
unfoldable pub to_lowercase : Bytes → Bytes
to_lowercase [] = []
to_lowercase (b ∷ bs) = lower b ∷ to_lowercase bs
