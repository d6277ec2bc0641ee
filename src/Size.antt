-- ===== src/Size.antt =====
-- src/util/parse.rs: the sizes of the configuration. The files that are read are arguments, `None` for one
-- that cannot be read, and the numbers of the type `f64` are a parameter. The build is that for Linux.
pub mod Printed
pub mod Exact
pub mod Accepted
pub mod Complete
pub mod Endings
use rog.Prelude.{
  ℕ, ◌*◌, ◌%◌, ◌^◌, ltb, ◌==◌, if◌then◌else◌, bytes_eq, Bool, true, false, ◌-◌, ◌&&◌, ◌||◌, Option,
  none, some, List, [], ◌∷◌, Result, ok, err, other, invalid_data, invalid_input, ok_or, ◌>>=◌,
}
use rog.Prelude.Word.{Bytes, codes}
use rog.Text.{is_utf8, parse_u64}
use rog.Text.Search.{is_prefix, lower, onto_first}
use rog.Text.Trim.{trim, split_whitespace, ends_with, cut}

-- `f64`: `parse`, the test `percent <= 0.0 || percent > 100.0`, and
-- `(total as f64 * (percent / 100.0)) as u64`.
pub record Floats : Type 1 where
  pub F64 : Type 0
  pub parse : Bytes → Option F64
  pub is_out_of_range : F64 → Bool
  pub share : ℕ → F64 → ℕ

pub record Files : Type 0 where
  pub memory_max : Option Bytes
  pub limit_in_bytes : Option Bytes
  pub meminfo : Result Bytes

abbrev pub u64 : ℕ → ℕ
u64 n = n % 2 ^ 64

-- `to_lowercase` on ASCII letters and on the Kelvin sign; no other character turns into a letter of a unit.
unfoldable pub to_lowercase : Bytes → Bytes
to_lowercase [] = []
to_lowercase (a ∷ []) = lower a ∷ []
to_lowercase (a ∷ b ∷ []) = lower a ∷ lower b ∷ []
to_lowercase (a ∷ b ∷ c ∷ s) = elim (a == 0xe2 && b == 0x84 && c == 0xaa) [
  | true ↦ b'k' ∷ to_lowercase s
  | false ↦ lower a ∷ to_lowercase (b ∷ c ∷ s)
]

-- `read_to_string`, `trim` and `parse`, and a number that is below the limit.
abbrev limited : ℕ → Option ℕ → Option ℕ
limited limit none = none
limited limit (some bytes) = if ltb bytes limit then some bytes else none

abbrev read_limit : ℕ → Option Bytes → Option ℕ
read_limit limit none = none
read_limit limit (some s) = if is_utf8 s then limited limit (parse_u64 (trim s)) else none

-- The pieces between line feeds. What follows the last one is a line only if it is not empty.
abbrev split_lines : Bytes → List Bytes
split_lines [] = [] ∷ []
split_lines (b ∷ bs) = let rest = split_lines bs in if b == 10 then [] ∷ rest else onto_first b rest

abbrev kilobytes : List Bytes → Option ℕ
kilobytes (_ ∷ kb ∷ _) = parse_u64 kb
kilobytes _ = none

abbrev undetermined : Result ℕ
undetermined = err other "could not determine total memory"

abbrev or_next : Option ℕ → Result ℕ → Result ℕ
or_next none next = next
or_next (some kb) next = ok (u64 (kb * 1024))

unfoldable pub total_of : List Bytes → Result ℕ
total_of [] = undetermined
total_of (line ∷ lines) =
    let next = total_of lines in
    if is_utf8 line
    then if is_prefix (codes "MemTotal:") line
      then or_next (kilobytes (split_whitespace line)) next
      else next
    else err invalid_data "stream did not contain valid UTF-8"

abbrev or_meminfo : Option ℕ → Option ℕ → Result Bytes → Result ℕ
or_meminfo (some bytes) limit meminfo = ok bytes
or_meminfo none (some bytes) meminfo = ok bytes
or_meminfo none none meminfo = do s ← meminfo; total_of (split_lines s)

unfoldable pub get_total_memory : Files → Result ℕ
unfolding total_of
get_total_memory files =
    or_meminfo (read_limit (2 ^ 64 - 1) files.memory_max)
      (read_limit 9223372036854771712 files.limit_in_bytes) files.meminfo

-- The number in front of a unit, and the product, which wraps.
unfoldable pub times : ℕ → Bytes → Result ℕ
times multiplier num_str = do
  num ← ok_or (parse_u64 (trim num_str)) invalid_input "invalid number format"
  ok (u64 (num * multiplier))

-- The unit with or without its `b`.
abbrev unit_end : Bytes → Bytes → ℕ
unit_end kb s = if ends_with kb s then 2 else 1

abbrev has_unit : Bytes → Bytes → Bytes → Bool
has_unit kb k s = ends_with kb s || ends_with k s

module _ (floats : Floats) (files : Files) where
  percentage : Bytes → Result ℕ
  percentage percent_str = do
    percent ← ok_or (floats.parse percent_str) invalid_input "invalid percentage format"
    if floats.is_out_of_range percent
        then err invalid_input "percentage must be between 0 and 100"
        else do total_mem ← get_total_memory files; ok (floats.share total_mem percent)

  unfoldable pub lower_size : Bytes → Result ℕ
  unfolding percentage times
  lower_size s =
      if bytes_eq s (codes "off") || bytes_eq s []
      then ok 0
      else if ends_with (codes "%") s
      then percentage (cut 1 s)
      else if has_unit (codes "kb") (codes "k") s
      then times 1024 (cut (unit_end (codes "kb") s) s)
      else if has_unit (codes "mb") (codes "m") s
      then times (1024 * 1024) (cut (unit_end (codes "mb") s) s)
      else if has_unit (codes "gb") (codes "g") s
      then times (1024 * 1024 * 1024) (cut (unit_end (codes "gb") s) s)
      else if ends_with (codes "b") s
      then times 1 (cut 1 s)
      else ok_or (parse_u64 s) invalid_input "invalid size format"

  unfoldable pub parse_size : Bytes → Result ℕ
  unfolding lower_size
  parse_size s = lower_size (to_lowercase (trim s))
