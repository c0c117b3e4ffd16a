-- ===== src/Tests/Parsers.antt =====
-- Concrete patterns, parsed with a compiler that accepts every expression as one literal.
use fox.Prelude.{ℕ, ◌+◌, ◌≤◌, ◌≡◌, ◌↔◌, true, false, some, length, codes, arith}
use fox.Parser.{Limits, Library, normalize_path}
use fox.Parser.Size.{literal, repeat, check_regexp_size}
use fox.Parser.Size.Capped.{size, check_regexp_size_iff}
use fox.Parser.Outcome.{Ends, Within}
use fox.Parser.Brace.{parse_brace}
use fox.Parser.Brace.Text.{Reads, parse_brace-Ends}
use fox.Parser.Path.{parse_path}
use fox.Parser.Path.Loop.{ReadsPath, HasRunes, parse_path-Ends}
use fox.Parser.Hostname.{parse_hostname}
use fox.Parser.Hostname.Loop.{ReadsHost, parse_hostname-Ends}
use fox.Parser.Pattern.{parse_pattern}
use fox.Parser.Pattern.Sound.{Answers, parse_pattern-Answers}

abbrev library : Library
library = record {
  parse = λ s. some (literal (length s));
  program_size = λ re. some 3;
  compiles = λ s. true;
  num_subexp = λ s. 0;
  error_text = λ s. "syntax";
  rune_size = λ s. 1;
}

abbrev limits : Limits
limits = record {
  max_params = 8;
  max_param_key_bytes = 16;
  max_regexp_size = 100;
  allow_regexp = true;
  merge_slash = normalize_path;
}

short_runes : HasRunes library
short_runes c t = omega arith

parse_brace-Ends_example :
    Ends
      (Reads 16 (codes "id:[0-9]+}/x"))
      (Within (1 + length (codes "id:[0-9]+}/x")))
      (parse_brace library limits (codes "{id:[0-9]+}/x") b'/' false)
parse_brace-Ends_example = parse_brace-Ends library limits (codes "id:[0-9]+}/x") b'/' false

parse_path-Ends_example :
    Ends
      (ReadsPath limits (codes "/a/{x}/*{y}") 1)
      (Within 11)
      (parse_path library limits (codes "/a/{x}/*{y}") 1)
parse_path-Ends_example =
    parse_path-Ends library limits (codes "/a/{x}/*{y}") 1 short_runes (omega arith)

parse_hostname-Ends_example :
    Ends
      (ReadsHost limits (codes "{sub}.fox.io"))
      (Within 12)
      (parse_hostname library limits (codes "{sub}.fox.io"))
parse_hostname-Ends_example = parse_hostname-Ends library limits (codes "{sub}.fox.io")

parse_pattern-Answers_example :
    Answers limits
      (codes "{sub}.fox.io/a/{x}/*{y}")
      (parse_pattern library limits (codes "{sub}.fox.io/a/{x}/*{y}"))
parse_pattern-Answers_example =
    parse_pattern-Answers library limits short_runes (codes "{sub}.fox.io/a/{x}/*{y}")

check_regexp_size_iff_example :
    (check_regexp_size (λ re. some 7) (repeat 2 (some 3) (literal 4)) 20 ≡ true)
    ↔ ((size (repeat 2 (some 3) (literal 4)) ≤ 20) × ((n : ℕ) × (some 7 ≡ some n) × (n ≤ 20)))
check_regexp_size_iff_example =
    check_regexp_size_iff (λ re. some 7) (repeat 2 (some 3) (literal 4)) 20
