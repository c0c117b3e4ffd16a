-- ===== src/Parser/Pattern.antt =====
-- parser.go: parsePattern.
pub mod Sound
use mathlib.Core.Option
use fox.Prelude.{
  ℕ, suc, ◌+◌, Bool, true, false, Option, none, some, List, [], ◌∷◌, ◌++◌, ◌==◌, if◌then◌else◌,
  length, take, drop, Bytes, ltb, is_empty, index_byte,
}
use fox.Route.{Token, static, param, wildcard, Pattern}
use fox.Parser.{
  Reason, bad_syntax, PatternError, new_pattern_error, shift, Limits, Library, Parse, parsed,
  failed, out_of_fuel,
}
use fox.Parser.Path.{parse_path}
use fox.Parser.Hostname.{parse_hostname}

pub data Part : Type 0 where
  hostname path : Part

-- ErrInvalidRoute for an empty pattern, or a PatternError with the part that it is about.
pub data Failure : Type 0 where
  invalid_route : Failure
  pattern_error : Part → PatternError → Failure
  no_fuel : Failure

pub data Parsed : Type 0 where
  pattern : Pattern → ℕ → Parsed
  rejected : Failure → Parsed

-- `pathTokens[len(pathTokens)-1].typ == nodeWildcard`; a path has a token, since it has a slash.
unfoldable pub ends_with_wildcard : List Token → Bool
ends_with_wildcard [] = false
ends_with_wildcard (t ∷ []) = elim t.typ [ static ↦ false | param ↦ false | wildcard ↦ true ]
ends_with_wildcard (t ∷ u ∷ ts) = ends_with_wildcard (u ∷ ts)

-- The answer, from what parsePath returns for the path that begins at `end_host`.
abbrev pub with_path : Bytes → ℕ → List Token × ℕ → Parse (List Token × Bool × ℕ) → Parsed
with_path raw end_host host out_of_fuel = rejected no_fuel
with_path raw end_host host (failed e) = rejected (pattern_error path (shift end_host e))
with_path raw end_host (tokens, host_params) (parsed (path_tokens, opt, count)) =
    pattern
      (record {
        str = raw;
        tokens = tokens ++ path_tokens;
        optional_catch_all = opt;
        catch_all = ends_with_wildcard path_tokens;
        end_host = end_host;
        host_params = host_params;
      })
      count

-- The path behind the hostname, which has these tokens and parameters.
unfoldable pub parse_rest : Library → Limits → Bytes → ℕ → List Token × ℕ → Parsed
unfolding parse_path ends_with_wildcard
parse_rest lib limits raw end_host host =
    with_path raw end_host host (parse_path lib limits (drop end_host raw) host.1)

abbrev pub with_host : (List Token × ℕ → Parsed) → Parse (List Token × ℕ) → Parsed
with_host rest out_of_fuel = rejected no_fuel
with_host rest (failed e) = rejected (pattern_error hostname e)
with_host rest (parsed r) = rest r

unfoldable pub parse_pattern : Library → Limits → Bytes → Parsed
unfolding parse_hostname parse_rest
parse_pattern lib limits raw = elim (index_byte raw b'/') [
  | none ↦
      if is_empty raw
      then rejected invalid_route
      else rejected (
          pattern_error hostname (
            new_pattern_error bad_syntax (length raw) (length raw)
              "missing trailing '/' after hostname"))
  | some end_host ↦
      if ltb 0 end_host
      then with_host (parse_rest lib limits raw end_host)
          (parse_hostname lib limits (take end_host raw))
      else parse_rest lib limits raw end_host ([], 0)
]
