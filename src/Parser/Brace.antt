-- ===== src/Parser/Brace.antt =====
-- parser.go: braceIndex, parseBrace and compileParamRegexp.
pub mod Text
use mathlib.Core.Option
use fox.Prelude.{
  ℕ, zero, suc, ◌+◌, ◌-◌, Bool, true, false, ◌&&◌, ◌||◌, not, Option, none, some, List, [], ◌∷◌,
  ◌++◌, ◌==◌, if◌then◌else◌, length, take, drop, Bytes, codes, ltb, is_empty, index_byte,
}
use fox.Parser.Size.{check_regexp_size}
use fox.Parser.{
  Reason, bad_syntax, bad_constraint, bad_parameter, bad_regexp, PatternError, shift, Limits,
  Library, Parse, parsed, failed, ◌>>=◌, ◌>>◌, reject_if, new_pattern_error, on_error, fail,
  is_ascii_control,
}

-- The level behind a byte; a closing brace at level one ends the loop.
abbrev pub next_level : ℕ → ℕ → ℕ
next_level c level = if c == b'{' then suc level else if c == b'}' then level - 1 else level

unfoldable pub brace_index : Bytes → ℕ → Option ℕ
brace_index [] level = none
brace_index (c ∷ s) level = elim (c == b'}' && level == 1) [
  | true ↦ some 0
  | false ↦ Option.map suc (brace_index s (next_level c level))
]

-- The index of the first byte that a loop returns at.
unfoldable pub index_of : (ℕ → Bool) → Bytes → Option (ℕ × ℕ)
index_of f [] = none
index_of f (c ∷ s) = elim (f c) [
  | true ↦ some (0, c)
  | false ↦ Option.map (λ p. (suc p.0, p.1)) (index_of f s)
]

-- The expression as it is compiled.
unfoldable pub anchored : Bytes → Bool → Bytes
anchored raw ignore_case =
    let expr = codes "^(?:" ++ (raw ++ codes ")$") in
    if ignore_case then codes "(?i)" ++ expr else expr

-- The loop over the name.
abbrev pub is_illegal : ℕ → ℕ → Bool
is_illegal delim c = c == delim || c == b'/' || c == b'*' || c == b'+' || c == b'{'

unfoldable pub check_name : ℕ → Bytes → Parse Bytes
unfolding index_of is_ascii_control
check_name delim name = elim (index_of (λ c. is_ascii_control c || is_illegal delim c) name) [
  | none ↦ parsed name
  | some (j, c) ↦
      if is_ascii_control c
      then fail bad_parameter (1 + j) (1 + j + 1) "illegal control character in name"
      else fail bad_parameter (1 + j) (1 + j + 1) "illegal character in name"
]

module _ (lib : Library) (limits : Limits) where
  unfoldable pub compile_param_regexp : Bytes → Bool → Parse Bytes
  unfolding anchored check_regexp_size
  compile_param_regexp raw ignore_case = do
    reject_if (not limits.allow_regexp)
        (new_pattern_error bad_regexp 0 (length raw) "feature not enabled")
    reject_if (is_empty raw) (new_pattern_error bad_regexp 0 0 "missing expression")
    elim (lib.parse raw) [
      | none ↦ fail bad_regexp 0 (length raw) (lib.error_text raw)
      | some re ↦ do
        reject_if (not (check_regexp_size lib.program_size re limits.max_regexp_size))
            (new_pattern_error bad_regexp 0 (length raw) "expression too large")
        reject_if (not (lib.compiles (anchored raw ignore_case))) (
            new_pattern_error bad_regexp 0 (length raw) (lib.error_text (anchored raw ignore_case)))
        reject_if (ltb 0 (lib.num_subexp (anchored raw ignore_case)))
            (new_pattern_error bad_regexp 0 (length raw) "capture group, use (?:...) instead")
        parsed (anchored raw ignore_case)
    ]

  -- The expression behind the colon, which stands at `colon` in the content.
  unfoldable pub check_regexp : ℕ → ℕ → Bytes → Bool → ℕ → Parse (Option Bytes)
  unfolding index_of is_ascii_control compile_param_regexp
  check_regexp delim colon raw is_optional consumed = do
    reject_if (is_optional)
        (new_pattern_error bad_regexp 0 consumed "not allowed in optional wildcard")
    elim (index_of is_ascii_control raw) [
      | some (j, c) ↦
          fail bad_regexp (1 + colon + 1 + j) (1 + colon + 1 + j + 1) "illegal control character"
      | none ↦ on_error (shift (1 + colon + 1)) (compile_param_regexp raw (delim == b'.')) >>= λ re.
          parsed (some re)
    ]

  unfoldable pub brace_content : ℕ → Bytes → Bytes → Option ℕ → Bool → ℕ → Parse (Option Bytes)
  unfolding check_name check_regexp
  brace_content delim content name colon is_optional consumed = do
    reject_if (ltb limits.max_param_key_bytes (length name))
        (new_pattern_error bad_constraint 1 (1 + length name) "key too large")
    reject_if (is_empty name) (new_pattern_error bad_parameter 0 consumed "missing name")
    check_name delim name >>= λ _. elim colon [
      | none ↦ parsed none
      | some ci ↦ check_regexp delim ci (drop (suc ci) content) is_optional consumed
    ]

  -- The name, the expression and the number of bytes; `s` begins with the opening brace.
  unfoldable pub parse_brace : Bytes → ℕ → Bool → Parse (Bytes × Option Bytes × ℕ)
  unfolding brace_index brace_content
  parse_brace s delim is_optional = elim (brace_index (drop 1 s) 1) [
    | none ↦ fail bad_syntax 0 (length s) "unbalanced braces"
    | some idx ↦
        let content = take idx (drop 1 s) in
        let consumed = 1 + idx + 1 in
        let colon = index_byte content b':' in
        let name : Bytes = elim colon [ none ↦ content | some ci ↦ take ci content ] in
        brace_content delim content name colon is_optional consumed >>= λ re.
        parsed (name, re, consumed)
  ]
