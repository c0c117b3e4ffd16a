-- ===== src/Parser/Path.antt =====
-- parser.go: parsePath. The state holds what is left of the path and the byte before it, so that
-- path[i-1] is `prev`, which is 0 at the start. One unit of fuel is one round of the loop.
pub mod State
pub mod End
pub mod Cases
pub mod Round
pub mod Loop
use mathlib.Core.Option
use fox.Prelude.{
  ℕ, zero, suc, ◌+◌, ◌-◌, Bool, true, false, ◌&&◌, ◌||◌, not, Option, none, some, List, [], ◌∷◌,
  ◌++◌, ◌==◌, if◌then◌else◌, length, drop, Bytes, ltb, leb,
}
use fox.Route.{Token}
use fox.StringsUtil.{decode_hex_pair, is_unreserved, is_routable_raw, upper_hex}
use fox.Parser.{
  NormalizeOption, exact_path, normalize_path, redirect_path, Reason, bad_syntax, bad_constraint,
  bad_regexp, bad_parameter, PatternError, shift, Limits, Library, Parse, parsed, failed,
  out_of_fuel, ◌>>=◌, ◌>>◌, reject_if, new_pattern_error, on_error, fail, is_ascii_control, flush,
  brace_token,
}
use fox.Parser.Brace.{brace_index, parse_brace}

pub record Progress : Type 0 where
  pub pos : ℕ
  pub prev : ℕ
  pub rest : Bytes
  pub buf : Bytes
  pub tokens : List Token
  pub prev_wild : Bool
  pub saw_wild : Bool
  pub static_since : ℕ
  pub opt_catch_all : Bool
  pub param_count : ℕ

-- The byte `c` is written, and the loop goes on behind it.
abbrev pub put_byte : Progress → ℕ → Bytes → Progress
put_byte s c rest = record s {
  pos = s.pos + 1;
  prev = c;
  rest = rest;
  buf = s.buf ++ c ∷ [];
  static_since = s.static_since + 1;
}

abbrev pub starts_with : ℕ → Bytes → Bool
starts_with c [] = false
starts_with c (x ∷ s) = x == c

abbrev pub at_segment_end : Bytes → Bool
at_segment_end [] = true
at_segment_end (x ∷ s) = x == b'/'

-- Where a segment that begins at `next` ends: behind the slash, if there is one.
abbrev pub segment_stop : ℕ → Bytes → ℕ
segment_stop next [] = next
segment_stop next (x ∷ s) = next + 1

-- paramEnd: behind the closing brace, or the end of the text; `s` begins with the brace at `i`.
unfoldable pub param_end : Bytes → ℕ → ℕ
unfolding brace_index
param_end s i = elim (brace_index (drop 1 s) 1) [ none ↦ i + length s | some idx ↦ i + 1 + idx + 1 ]

-- `case '%'`
unfoldable pub path_escape : Progress → Bytes → Parse Progress
unfolding decode_hex_pair
path_escape s (x ∷ y ∷ rest) = elim (decode_hex_pair x y) [
  | none ↦ fail bad_syntax s.pos (s.pos + 3) "invalid percent-encoding"
  | some b ↦ do
    reject_if (is_unreserved b) (
        new_pattern_error bad_syntax s.pos (s.pos + 3)
          "non-canonical percent-encoding, encodes an unreserved character")
    reject_if (not (x == upper_hex x) || not (y == upper_hex y)) (
        new_pattern_error bad_syntax s.pos (s.pos + 3)
          "non-canonical percent-encoding, hex must be uppercase")
    parsed (record s {
      pos = s.pos + 3;
      prev = y;
      rest = rest;
      buf = s.buf ++ b'%' ∷ x ∷ y ∷ [];
      static_since = s.static_since + 3;
    })
]
path_escape s after = fail bad_syntax s.pos (s.pos + 1 + length after) "invalid percent-encoding"

-- The test for "/." and "/.." at the end or before a slash: where the segment ends.
unfoldable pub dot_segment_stop : Progress → Bytes → Option ℕ
dot_segment_stop s [] = some (segment_stop (s.pos + 1) [])
dot_segment_stop s (x ∷ after) =
    if x == b'/'
    then some (segment_stop (s.pos + 1) (x ∷ after))
    else if x == b'.' && at_segment_end after
    then some (segment_stop (s.pos + 2) after)
    else none

unfoldable pub no_dot_segment : ℕ → Option ℕ → Parse (Unit {0})
no_dot_segment pos none = parsed tt
no_dot_segment pos (some stop) = fail bad_syntax (pos - 1) stop "unsafe dot segment"

-- The error for a byte that may not stand unescaped in a path; `text` begins with it.
unfoldable pub unroutable_error : Library → ℕ → ℕ → Bytes → PatternError
unroutable_error lib pos c text =
    if c == b'}'
    then record { reason = bad_syntax; hint = "unbalanced braces"; start = pos; stop = pos + 1 }
    else if c == b'?'
    then record {
      reason = bad_syntax;
      hint = "illegal query delimiter in patterns";
      start = pos;
      stop = pos + 1;
    }
    else if c == b'#'
    then record {
      reason = bad_syntax;
      hint = "illegal fragment delimiter in patterns";
      start = pos;
      stop = pos + 1;
    }
    else record {
      reason = bad_syntax;
      hint = "character requires percent-encoding";
      start = pos;
      stop = pos + lib.rune_size text;
    }

abbrev pub is_exact : NormalizeOption → Bool
is_exact exact_path = true
is_exact normalize_path = false
is_exact redirect_path = false

-- Start of the error of parseBrace on an optional wildcard.
abbrev pub brace_error : Progress → ℕ → Bool → PatternError → PatternError
brace_error s i is_opt e =
    let e' = shift i e in
    if is_opt then elim e.reason [ bad_regexp ↦ record e' { start = s.pos } | _ ↦ e' ] else e'

abbrev pub path_start : Bytes → ℕ → Progress
path_start path param_count = record {
  pos = 0;
  prev = 0;
  rest = path;
  buf = [];
  tokens = [];
  prev_wild = false;
  saw_wild = false;
  static_since = 0;
  opt_catch_all = false;
  param_count = param_count;
}

module _ (lib : Library) (limits : Limits) where
  -- `default`
  unfoldable pub path_literal : Progress → ℕ → Bytes → Parse Progress
  unfolding is_ascii_control is_routable_raw unroutable_error dot_segment_stop no_dot_segment
  path_literal s c after = do
    reject_if (is_ascii_control c)
        (new_pattern_error bad_syntax s.pos (s.pos + 1) "illegal control character")
    reject_if (not (is_routable_raw c)) (unroutable_error lib s.pos c (c ∷ after))
    reject_if (c == b'/' && s.prev == b'/' && not (is_exact limits.merge_slash)) (
        new_pattern_error bad_syntax (s.pos - 1) (s.pos + 1)
          "consecutive '/' unreachable, slashes are merged before matching")
    no_dot_segment s.pos (if c == b'.' && s.prev == b'/' then dot_segment_stop s after else none)
    parsed (put_byte s c after)

  -- Behind parseBrace: `text` begins with the opening brace, which stands at `i`.
  unfoldable pub path_param :
      Progress → ℕ → Bytes → Bool → Bool → Bytes × Option Bytes × ℕ → Parse Progress
  path_param s i text is_wild is_opt (name, re, n) =
      let rest = drop n text in
      do
        reject_if (ltb limits.max_params (s.param_count + 1))
            (new_pattern_error bad_constraint s.pos (i + n) "too many parameters")
        reject_if (is_opt && ltb 0 (length rest))
            (new_pattern_error bad_syntax s.pos (i + n) "optional wildcard allowed only as suffix")
        reject_if (not (at_segment_end rest))
            (new_pattern_error bad_syntax (i + n) (i + n + 1) "illegal character after parameter")
        parsed (record {
          pos = i + n;
          prev = b'}';
          rest = rest;
          buf = [];
          tokens = flush s.tokens s.buf false ++ (brace_token is_wild name re s.saw_wild) ∷ [];
          prev_wild = is_wild;
          saw_wild = s.saw_wild || is_wild;
          static_since = if is_wild then 0 else s.static_since;
          opt_catch_all = s.opt_catch_all || is_opt;
          param_count = s.param_count + 1;
        })

  -- `case '{', '+', '*'` with a brace: `text` begins with it, and it stands at `i`.
  unfoldable pub path_brace : Progress → ℕ → Bytes → Bool → Bool → Parse Progress
  unfolding param_end parse_brace path_param
  path_brace s i text is_wild is_opt = do
    reject_if (is_wild && s.prev_wild && leb s.static_since 1)
        (new_pattern_error bad_syntax (i - 1) (param_end text i) "consecutive wildcard")
    on_error (brace_error s i is_opt) (parse_brace lib limits text b'/' is_opt)
        >>= path_param s i text is_wild is_opt

  -- `case '+', '*'`
  unfoldable pub path_mark : Progress → ℕ → Bytes → Parse Progress
  unfolding path_brace
  path_mark s c after =
      if starts_with b'{' after
      then path_brace s (s.pos + 1) after true (c == b'*')
      else parsed (put_byte s c after)

  unfoldable pub path_round : Progress → ℕ → Bytes → Parse Progress
  unfolding path_literal path_escape path_brace path_mark
  path_round s c after =
      if c == b'{'
      then path_brace s s.pos (c ∷ after) false false
      else if c == b'+' || c == b'*'
      then path_mark s c after
      else if c == b'%'
      then path_escape s after
      else path_literal s c after

  unfoldable pub path_loop : ℕ → Progress → Bytes → Parse Progress
  unfolding path_round
  path_loop zero s text = out_of_fuel
  path_loop (suc f) s [] = parsed s
  path_loop (suc f) s (c ∷ after) = path_round s c after >>= λ s'. path_loop f s' s'.rest

  -- The tokens, the flag of an optional catch-all and the number of parameters.
  unfoldable pub parse_path : Bytes → ℕ → Parse (List Token × Bool × ℕ)
  unfolding path_loop
  parse_path path param_count =
      path_loop (suc (length path)) (path_start path param_count) path >>= λ s.
      parsed (flush s.tokens s.buf false, s.opt_catch_all, s.param_count)
