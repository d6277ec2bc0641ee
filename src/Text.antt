-- ===== src/Text.antt =====
-- What the program uses of the standard library's text: decimal and hexadecimal numbers, UTF-8
-- validity, the parser of `u16`, and the text of IP addresses. A string is its UTF-8 bytes.
pub mod Decimal
pub mod Search
pub mod Lines
pub mod Trim
use rog.Prelude.{
  ℕ, zero, suc, ◌+◌, ◌-◌, ◌*◌, ◌/◌, ◌%◌, ◌^◌, ltb, leb, ◌==◌, if◌then◌else◌, Bool, true, false,
  ◌&&◌, Option, none, some, List, [], ◌∷◌, ◌++◌, length, take, drop,
}
use rog.Prelude.Word.{Bytes, codes, from_be}

-- The decimal digits of a number, with fuel; `n + 1` is enough.
unfoldable pub digits : ℕ → ℕ → Bytes
digits zero n = []
digits (suc fuel) n =
    let more = digits fuel (n / 10) in
    if ltb n 10 then (b'0' + n) ∷ [] else more ++ (b'0' + n % 10) ∷ []

unfoldable pub to_string : ℕ → Bytes
unfolding digits
to_string n = digits (suc n) n

hex_digit : ℕ → ℕ
hex_digit d = if ltb d 10 then b'0' + d else b'a' + (d - 10)

hex_digits : ℕ → ℕ → Bytes
hex_digits zero n = []
hex_digits (suc fuel) n =
    let more = hex_digits fuel (n / 16) in
    if ltb n 16 then hex_digit n ∷ [] else more ++ hex_digit (n % 16) ∷ []

-- `{:x}` of a `u16`, which has at most four digits.
unfoldable pub to_hex : ℕ → Bytes
unfolding hex_digits hex_digit
to_hex n = hex_digits 4 n

-- `str::parse` into an unsigned type: an optional plus sign, then digits, whose value must not reach
-- the limit of the type.
unfoldable pub is_digit : ℕ → Bool
is_digit c = leb b'0' c && leb c b'9'

unfoldable pub parse_digits : ℕ → ℕ → Bytes → Option ℕ
unfolding is_digit
parse_digits limit acc [] = some acc
parse_digits limit acc (c ∷ cs) =
    let next = acc * 10 + (c - b'0') in
    let more = parse_digits limit next cs in
    if is_digit c then if ltb next limit then more else none else none

unfoldable pub parse_uint : ℕ → Bytes → Option ℕ
unfolding parse_digits
parse_uint limit [] = none
parse_uint limit (c ∷ []) = parse_digits limit 0 (c ∷ [])
parse_uint limit (c ∷ d ∷ cs) =
    if c == b'+' then parse_digits limit 0 (d ∷ cs) else parse_digits limit 0 (c ∷ d ∷ cs)

unfoldable pub parse_u16 : Bytes → Option ℕ
unfolding parse_uint
parse_u16 = parse_uint 65536

unfoldable pub parse_u64 : Bytes → Option ℕ
unfolding parse_uint
parse_u64 = parse_uint (2 ^ 64)

-- `str::from_utf8`: the ranges that the next bytes must lie in.
abbrev Range : Type 0
Range = ℕ × ℕ

abbrev tail_byte : Range
tail_byte = (0x80, 0xbf)

within : Range → ℕ → Bool
within (lo, hi) b = leb lo b && leb b hi

-- What must follow a first byte.
lead : ℕ → Option (List Range)
unfolding within
lead b =
    if ltb b 0x80
    then some []
    else if within (0xc2, 0xdf) b
    then some (tail_byte ∷ [])
    else if b == 0xe0
    then some ((0xa0, 0xbf) ∷ tail_byte ∷ [])
    else if b == 0xed
    then some ((0x80, 0x9f) ∷ tail_byte ∷ [])
    else if within (0xe1, 0xef) b
    then some (tail_byte ∷ tail_byte ∷ [])
    else if b == 0xf0
    then some ((0x90, 0xbf) ∷ tail_byte ∷ tail_byte ∷ [])
    else if within (0xf1, 0xf3) b
    then some (tail_byte ∷ tail_byte ∷ tail_byte ∷ [])
    else if b == 0xf4
    then some ((0x80, 0x8f) ∷ tail_byte ∷ tail_byte ∷ [])
    else none

utf8_from : List Range → Bytes → Bool
utf8_from [] [] = true
utf8_from (r ∷ rs) [] = false
utf8_from (r ∷ rs) (b ∷ bs) = within r b && utf8_from rs bs
utf8_from [] (b ∷ bs) = elim (lead b) [ none ↦ false | some rs ↦ utf8_from rs bs ]

unfoldable pub is_utf8 : Bytes → Bool
unfolding utf8_from lead within
is_utf8 = utf8_from []

join : ℕ → List Bytes → Bytes
join sep [] = []
join sep (x ∷ []) = x
join sep (x ∷ y ∷ xs) = x ++ (sep ∷ join sep (y ∷ xs))

-- `Ipv4Addr::to_string` of the four octets.
unfoldable pub ipv4_to_string : ℕ → ℕ → ℕ → ℕ → Bytes
unfolding join to_string
ipv4_to_string a b c d = join b'.' (to_string a ∷ to_string b ∷ to_string c ∷ to_string d ∷ [])

-- The first longest run of zero segments: its start and its length. The arguments are the index,
-- the current run and the longest one so far.
longest_run : ℕ → ℕ × ℕ → ℕ × ℕ → List ℕ → ℕ × ℕ
longest_run i current best [] = best
longest_run i (start, len) best (s ∷ ss) =
    let current' = if s == 0 then (if len == 0 then i else start, len + 1) else (0, 0) in
    longest_run (i + 1) current' (if ltb best.1 current'.1 then current' else best) ss

hex_join : List ℕ → Bytes
hex_join [] = []
hex_join (s ∷ []) = to_hex s
hex_join (s ∷ t ∷ ss) = to_hex s ++ (b':' ∷ hex_join (t ∷ ss))

-- `Ipv6Addr::to_string` of the eight segments: a mapped IPv4 address in dotted form, else the first
-- longest run of at least two zeros as "::".
ipv6_segments : List ℕ → Bytes
ipv6_segments ss =
    let run = longest_run 0 (0, 0) (0, 0) ss in
    if ltb 1 run.1
    then hex_join (take run.0 ss) ++ (codes "::" ++ hex_join (drop (run.0 + run.1) ss))
    else hex_join ss

unfoldable pub ipv6_to_string : ℕ → ℕ → ℕ → ℕ → ℕ → ℕ → ℕ → ℕ → Bytes
unfolding ipv6_segments longest_run hex_join to_hex ipv4_to_string
ipv6_to_string a b c d e f g h =
    if a == 0 && (b == 0 && (c == 0 && (d == 0 && (e == 0 && f == 0xffff))))
    then codes "::ffff:" ++ ipv4_to_string (g / 256) (g % 256) (h / 256) (h % 256)
    else ipv6_segments (a ∷ b ∷ c ∷ d ∷ e ∷ f ∷ g ∷ h ∷ [])

-- `str::rsplit_once`: what stands before and behind the last `sep`.
unfoldable pub rsplit_once : ℕ → Bytes → Option (Bytes × Bytes)
rsplit_once sep [] = none
rsplit_once sep (x ∷ xs) = elim (rsplit_once sep xs) [
  | some (before, behind) ↦ some (x ∷ before, behind)
  | none ↦ if x == sep then some ([], xs) else none
]
