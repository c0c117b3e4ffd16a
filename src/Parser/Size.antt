-- ===== src/Parser/Size.antt =====
-- parser.go: checkRegexpSize and minRegexpSize. `Syntax` is what they read of a *syntax.Regexp: the
-- operations with a case of their own, and the expressions below; a maximum of -1 is `none`.
pub mod Capped
use fox.Prelude.{
  ℕ, zero, suc, ◌+◌, ◌*◌, min, max, Bool, true, false, not, Option, none, some, ◌==◌, if◌then◌else◌,
  ltb,
}

mutual
  pub data Syntax : Type 0 where
    no_match : Syntax
    literal : ℕ → Syntax
    repeat : ℕ → Option ℕ → Syntax → Syntax
    other : Syntaxes → Syntax

  pub data Syntaxes : Type 0 where
    no_more : Syntaxes
    more : Syntax → Syntaxes → Syntaxes

abbrev pub copies : ℕ → Option ℕ → ℕ
copies low none = low
copies low (some high) = high

unfoldable mutual
  pub min_regexp_size : Syntax → ℕ → ℕ
  min_regexp_size no_match limit = 0
  min_regexp_size (literal runes) limit = min (max runes 1) (limit + 1)
  min_regexp_size (repeat low high sub) limit =
      let size = min_regexp_size sub limit in
      if copies low high == 0 then 1 else min (copies low high * size) (limit + 1)
  min_regexp_size (other no_more) limit = 1
  min_regexp_size (other (more sub subs)) limit =
      let n = min_regexp_size sub limit in
      let rest = add_sizes subs limit n in if ltb limit n then limit + 1 else rest

  -- The loop, which has added up `n`.
  pub add_sizes : Syntaxes → ℕ → ℕ → ℕ
  add_sizes no_more limit n = n
  add_sizes (more sub subs) limit n =
      let m = n + min_regexp_size sub limit in
      let rest = add_sizes subs limit m in if ltb limit m then limit + 1 else rest

-- `program_size` is the number of instructions that syntax.Compile gives for the simplified expression.
unfoldable pub check_regexp_size : (Syntax → Option ℕ) → Syntax → ℕ → Bool
unfolding min_regexp_size
check_regexp_size program_size re limit =
    if ltb limit (min_regexp_size re limit)
    then false
    else elim (program_size re) [ none ↦ false | some n ↦ not (ltb limit n) ]
