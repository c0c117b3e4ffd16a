-- ===== src/Parser.antt =====
-- parser.go: patterns of routes. The data of a parse, and what the parsers of the hostname and of the
-- path share. `Library` stands for regexp, regexp/syntax and unicode/utf8: the parser, the
-- compiler and the size of its program, the capture groups, and the length of a rune.
pub mod Outcome
pub mod Size
pub mod Brace
pub mod Tokens
pub mod Reading
pub mod Path
pub mod Hostname
pub mod Pattern
use fox.Prelude.{
  ℕ, suc, ◌+◌, ◌-◌, Bool, true, false, ◌&&◌, ◌||◌, Option, none, some, List, [], ◌∷◌, ◌++◌, ◌==◌,
  if◌then◌else◌, length, Bytes, ltb, is_empty,
}
use Prim.Native.String.{String}
use fox.Parser.Size.{Syntax}
use fox.Route.{Token, static, param, wildcard}

pub data NormalizeOption : Type 0 where
  exact_path normalize_path redirect_path : NormalizeOption

pub data Reason : Type 0 where
  bad_syntax bad_constraint bad_parameter bad_regexp : Reason

-- PatternError without the pattern and the part, which are those of the call.
pub record PatternError : Type 0 where
  pub reason : Reason
  pub hint : String
  pub start : ℕ
  pub stop : ℕ

abbrev pub new_pattern_error : Reason → ℕ → ℕ → String → PatternError
new_pattern_error r s e h = record { reason = r; hint = h; start = s; stop = e }

abbrev pub shift : ℕ → PatternError → PatternError
shift n e = record e { start = e.start + n; stop = e.stop + n }

-- The fields of Router that the parser reads.
pub record Limits : Type 0 where
  pub max_params : ℕ
  pub max_param_key_bytes : ℕ
  pub max_regexp_size : ℕ
  pub allow_regexp : Bool
  pub merge_slash : NormalizeOption

pub record Library : Type 0 where
  pub parse : Bytes → Option Syntax
  pub program_size : Syntax → Option ℕ
  pub compiles : Bytes → Bool
  pub num_subexp : Bytes → ℕ
  pub error_text : Bytes → String
  pub rune_size : Bytes → ℕ

-- The outcome of a parse, or of one round of a loop.
pub data Parse (A : Type 0) : Type 0 where
  parsed : A → Parse A
  failed : PatternError → Parse A
  out_of_fuel : Parse A

infixl 5 ◌>>=◌ ◌>>◌
abbrev pub ◌>>=◌ : {A B : Type 0} → Parse A → (A → Parse B) → Parse B
parsed a >>= f = f a
failed e >>= f = failed e
out_of_fuel >>= f = out_of_fuel

abbrev pub ◌>>◌ : {B : Type 0} → Parse (Unit {0}) → Parse B → Parse B
m >> k = m >>= λ _. k

-- `if b { return e }`. It is shut in proofs, which read it by what it ends in.
unfoldable pub reject_if : Bool → PatternError → Parse (Unit {0})
reject_if b e = if b then failed e else parsed tt

-- A function on the error: what the caller does with a *PatternError that is not nil.
abbrev pub on_error : {A : Type 0} → (PatternError → PatternError) → Parse A → Parse A
on_error f (parsed a) = parsed a
on_error f (failed e) = failed (f e)
on_error f out_of_fuel = out_of_fuel

abbrev pub fail : {A : Type 0} → Reason → ℕ → ℕ → String → Parse A
fail r s e h = failed (new_pattern_error r s e h)

unfoldable pub is_ascii_control : ℕ → Bool
is_ascii_control c = ltb c 32 || c == 127

-- `if sb.Len() > 0 { tokens = append(tokens, …); sb.Reset() }`
abbrev pub flush : List Token → Bytes → Bool → List Token
flush tokens [] hsplit = tokens
flush tokens (c ∷ buf) hsplit =
    tokens
    ++ (record { regexp = none; value = c ∷ buf; typ = static; nested = false; hsplit = hsplit })
      ∷ []

-- The token of a parameter, or of a wildcard.
abbrev pub brace_token : Bool → Bytes → Option Bytes → Bool → Token
brace_token is_wild name re saw_wild = record {
  regexp = re;
  value = name;
  typ = if is_wild then wildcard else param;
  nested = is_wild && saw_wild;
  hsplit = false;
}
