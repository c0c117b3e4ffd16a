-- ===== src/Parser/Hostname.antt =====
-- parser.go: parseHostname. The byte `last` is a dot at the start, and 0 behind a parameter.
pub mod Round
pub mod Loop
use mathlib.Core.Option
use fox.Prelude.{
  ℕ, zero, suc, ◌+◌, ◌-◌, Bool, true, false, ◌&&◌, ◌||◌, not, Option, none, some, List, [], ◌∷◌,
  ◌++◌, ◌==◌, if◌then◌else◌, length, drop, Bytes, ltb, leb,
}
use fox.Route.{Token}
use fox.Parser.{
  Reason, bad_syntax, bad_constraint, PatternError, shift, Limits, Library, Parse, parsed, failed,
  out_of_fuel, ◌>>=◌, ◌>>◌, reject_if, new_pattern_error, on_error, fail, flush, brace_token,
}
use fox.Parser.Brace.{brace_index, parse_brace}
use fox.Parser.Path.{starts_with, param_end}

pub record Progress : Type 0 where
  pub pos : ℕ
  pub rest : Bytes
  pub buf : Bytes
  pub tokens : List Token
  pub param_count : ℕ
  pub prev_wild : Bool
  pub saw_wild : Bool
  pub static_since : ℕ
  pub part_len : ℕ
  pub total_len : ℕ
  pub label_start : ℕ
  pub last : ℕ
  pub non_numeric : Bool

-- What the inner switch does to the length of the label and to `nonNumeric`.
abbrev pub add_letter : Progress → Progress
add_letter s = record s { part_len = s.part_len + 1; non_numeric = true }

abbrev pub add_digit : Progress → Progress
add_digit s = record s { part_len = s.part_len + 1 }

abbrev pub end_label : Progress → Progress
end_label s = record s {
  total_len = s.total_len + (s.part_len + 1);
  part_len = 0;
  label_start = s.pos + 1;
}

unfoldable pub host_dot : Progress → Parse Progress
host_dot s = do
  reject_if (s.last == b'.' && s.pos == 0)
      (new_pattern_error bad_syntax s.pos (s.pos + 1) "label starts with '.'")
  reject_if (s.last == b'.')
      (new_pattern_error bad_syntax (s.pos - 1) (s.pos + 1) "illegal consecutive '.'")
  reject_if (s.last == b'-') (new_pattern_error bad_syntax (s.pos - 1) s.pos "label ends with '-'")
  reject_if (ltb 63 s.part_len)
      (new_pattern_error bad_constraint s.label_start s.pos "label exceeds 63 characters")
  parsed (end_label s)

unfoldable pub host_dash : Progress → Parse Progress
host_dash s = do
  reject_if (s.last == b'.' && s.pos == 0)
      (new_pattern_error bad_syntax s.pos (s.pos + 1) "label starts with '-'")
  reject_if (s.last == b'.')
      (new_pattern_error bad_syntax s.pos (s.pos + 1) "illegal character after '.'")
  parsed (add_letter s)

-- The inner switch.
unfoldable pub host_label : Progress → ℕ → Parse Progress
unfolding host_dot host_dash
host_label s c =
    if leb b'a' c && leb c b'z' || c == b'_'
    then parsed (add_letter s)
    else if leb b'0' c && leb c b'9'
    then parsed (add_digit s)
    else if c == b'-'
    then host_dash s
    else if c == b'.'
    then host_dot s
    else if leb b'A' c && leb c b'Z'
    then fail bad_syntax s.pos (s.pos + 1) "uppercase character in label"
    else fail bad_syntax s.pos (s.pos + 1) "illegal character in label"

-- `default`: the byte is written.
abbrev pub put_byte : Progress → ℕ → Bytes → Progress
put_byte s c rest = record s {
  pos = s.pos + 1;
  rest = rest;
  buf = s.buf ++ c ∷ [];
  static_since = s.static_since + 1;
  last = c;
}

abbrev pub at_label_end : Bytes → Bool
at_label_end [] = true
at_label_end (x ∷ s) = x == b'.'

-- `case '*'`
unfoldable pub host_star : Progress → Bytes → Parse Progress
unfolding param_end
host_star s after =
    if starts_with b'{' after
    then fail bad_syntax s.pos (param_end after (s.pos + 1))
        "optional wildcard allowed only as suffix"
    else fail bad_syntax s.pos (s.pos + 1) "illegal character in label"

module _ (lib : Library) (limits : Limits) where
  unfoldable pub host_param :
      Progress → ℕ → Bytes → Bool → Bytes × Option Bytes × ℕ → Parse Progress
  host_param s i text is_wild (name, re, n) =
      let rest = drop n text in
      do
        reject_if (ltb limits.max_params (s.param_count + 1))
            (new_pattern_error bad_constraint s.pos (i + n) "too many parameters")
        reject_if (not (at_label_end rest))
            (new_pattern_error bad_syntax (i + n) (i + n + 1) "illegal character after parameter")
        parsed (record s {
          pos = i + n;
          rest = rest;
          buf = [];
          tokens = flush s.tokens s.buf true ++ (brace_token is_wild name re s.saw_wild) ∷ [];
          param_count = s.param_count + 1;
          prev_wild = is_wild;
          saw_wild = s.saw_wild || is_wild;
          static_since = if is_wild then 0 else s.static_since;
          last = 0;
          non_numeric = true;
        })

  -- `text` begins with the brace, which stands at `i`.
  unfoldable pub host_brace : Progress → ℕ → Bytes → Bool → Parse Progress
  unfolding param_end parse_brace host_param
  host_brace s i text is_wild = do
    reject_if (is_wild && s.prev_wild && leb s.static_since 1)
        (new_pattern_error bad_syntax (i - 1) (param_end text i) "consecutive wildcard")
    on_error (shift i) (parse_brace lib limits text b'.' false) >>= host_param s i text is_wild

  -- `case '+'`
  unfoldable pub host_plus : Progress → Bytes → Parse Progress
  unfolding host_brace
  host_plus s after =
      if starts_with b'{' after
      then host_brace s (s.pos + 1) after true
      else fail bad_syntax s.pos (s.pos + 1) "missing parameter after delimiter"

  unfoldable pub host_round : Progress → ℕ → Bytes → Parse Progress
  unfolding host_brace host_plus host_star host_label
  host_round s c after =
      if c == b'{'
      then host_brace s s.pos (c ∷ after) false
      else if c == b'+'
      then host_plus s after
      else if c == b'*'
      then host_star s after
      else host_label s c >>= λ s'. parsed (put_byte s' c after)

  unfoldable pub host_loop : ℕ → Progress → Bytes → Parse Progress
  unfolding host_round
  host_loop zero s text = out_of_fuel
  host_loop (suc f) s [] = parsed s
  host_loop (suc f) s (c ∷ after) = host_round s c after >>= λ s'. host_loop f s' s'.rest

-- What is tested behind the loop; `len` is the length of the hostname.
unfoldable pub host_finish : ℕ → Progress → Parse (List Token × ℕ)
host_finish len s = do
  reject_if (s.last == b'-') (new_pattern_error bad_syntax (len - 1) len "illegal trailing '-'")
  reject_if (s.last == b'.') (new_pattern_error bad_syntax (len - 1) len "illegal trailing '.'")
  reject_if (not s.non_numeric) (new_pattern_error bad_syntax 0 len "all numeric")
  reject_if (ltb 63 s.part_len)
      (new_pattern_error bad_constraint s.label_start len "label exceeds 63 characters")
  reject_if (ltb 253 (s.total_len + s.part_len))
      (new_pattern_error bad_constraint 0 len "exceeds 253 characters")
  parsed (flush s.tokens s.buf true, s.param_count)

abbrev pub host_start : Bytes → Progress
host_start hostname = record {
  pos = 0;
  rest = hostname;
  buf = [];
  tokens = [];
  param_count = 0;
  prev_wild = false;
  saw_wild = false;
  static_since = 0;
  part_len = 0;
  total_len = 0;
  label_start = 0;
  last = b'.';
  non_numeric = false;
}

unfoldable pub parse_hostname : Library → Limits → Bytes → Parse (List Token × ℕ)
unfolding host_loop host_finish
parse_hostname lib limits hostname =
    host_loop lib limits (suc (length hostname)) (host_start hostname) hostname
    >>= host_finish (length hostname)
