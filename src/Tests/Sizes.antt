-- ===== src/Tests/Sizes.antt =====
-- Runs of the parser of sizes.
use rog.Prelude.{◌↔◌, ℕ, ◌*◌, ◌%◌, ◌^◌, ◌≡◌, refl, false, none, some, ◌++◌, ok, arith, bytes_eq}
use rog.Prelude.Word.{codes}
use rog.Text.{to_string, is_utf8, parse_u64}
use rog.Text.Search.{is_prefix}
use rog.Text.Trim.{trim, split_whitespace}
use rog.Size.{Floats, Files, to_lowercase, parse_size, get_total_memory}
use rog.Size.Exact.{parse_size-to_string}
use rog.Size.Printed.{gb, factor, text}
use rog.Size.Accepted.{Means}
use rog.Size.Complete.{parse_size_iff}

abbrev percents : Floats
percents = record {
  F64 = ℕ;
  parse = λ s. some 50;
  is_out_of_range = λ p. false;
  share = λ total p. total * p % 2 ^ 64;
}

abbrev machine : Files
machine = record {
  memory_max = some (codes "max\n");
  limit_in_bytes = none;
  meminfo = ok (codes "MemFree: 1 kB\nMemTotal:  20 kB\n");
}

total_memory : get_total_memory machine ≡ ok 20480
unfolding get_total_memory is_utf8 parse_u64 trim is_prefix split_whitespace
total_memory = refl

upper_case : parse_size percents machine (codes " 2 KB ") ≡ ok 2048
unfolding parse_size to_lowercase trim bytes_eq is_prefix parse_u64
upper_case = refl

parse_size-to_string_example :
    parse_size percents machine (to_string 3 ++ text gb) ≡ ok (3 * factor gb % 2 ^ 64)
parse_size-to_string_example = parse_size-to_string percents machine 3 gb (omega arith)

parse_size_iff_example :
    (parse_size percents machine (codes " 2 KB ") ≡ ok 2048)
    ↔ Means percents machine (to_lowercase (trim (codes " 2 KB "))) 2048
parse_size_iff_example = parse_size_iff percents machine (codes " 2 KB ") 2048
