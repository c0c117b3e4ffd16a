-- ===== src/Route.antt =====
-- route.go and the data that routes are made of (parser.go, tree.go, options.go): tokens, patterns,
-- routes, and the comparisons of their matchers. A regexp is the text that `re.String()` gives; what
-- the handlers, middleware and annotations of a route hold is one number, `handler`.
pub mod Matchers
pub mod Duplicates
use mathlib.Core.Option
use fox.Prelude.{
  ℕ, zero, suc, Bool, true, false, ◌&&◌, not, Option, none, some, List, [], ◌∷◌, ◌++◌, ◌==◌,
  if◌then◌else◌, length, Bytes, ltb, beq,
}
use fox.Slices.{claim_all, unmarked}

pub data TrailingSlashOption : Type 0 where
  exact_slash relaxed_slash redirect_slash : TrailingSlashOption

pub data NodeType : Type 0 where
  static param wildcard : NodeType

pub record Token : Type 0 where
  pub regexp : Option Bytes
  pub value : Bytes
  pub typ : NodeType
  pub nested : Bool
  pub hsplit : Bool

pub record Pattern : Type 0 where
  pub str : Bytes
  pub tokens : List Token
  pub optional_catch_all : Bool
  pub catch_all : Bool
  pub end_host : ℕ
  pub host_params : ℕ

-- `M` is the type of the attached matchers, an interface that applications implement.
pub record Route (M : Type 0) : Type 0 where
  pub handler : ℕ
  pub name : Bytes
  pub methods : List Bytes
  pub params : List Bytes
  pub matchers : List M
  pub method_fast : Bytes
  pub pattern : Pattern
  pub priority : ℕ
  pub handle_slash : TrailingSlashOption
  pub nested : Bool

abbrev pub is_nil {ℓ} : {A : Type ℓ} → List A → Bool
is_nil [] = true
is_nil (x ∷ xs) = false

module _ {M : Type 0} (equal : M → M → Bool) where
  unfoldable pub matchers_equal : Route M → List M → Bool
  unfolding claim_all unmarked
  matchers_equal r matchers =
      if length r.matchers == length matchers
      then claim_all equal r.matchers matchers (unmarked matchers)
      else false

  -- The inner loops of matchersWithin and hasDuplicateMatcher.
  unfoldable pub any_equal : M → List M → Bool
  any_equal a [] = false
  any_equal a (b ∷ bs) = if equal a b then true else any_equal a bs

  unfoldable pub all_within : List M → List M → Bool
  all_within [] matchers = true
  all_within (a ∷ as') matchers = if any_equal a matchers then all_within as' matchers else false

  unfoldable pub matchers_within : Route M → List M → Bool
  unfolding any_equal all_within
  matchers_within r matchers = all_within r.matchers matchers

  -- The loop of hasDuplicateMatcher: `m.Equal(matchers[i])` for the `m` before `i`.
  unfoldable pub any_equals : List M → M → Bool
  any_equals [] a = false
  any_equals (b ∷ bs) a = if equal b a then true else any_equals bs a

  unfoldable pub duplicate_from : List M → List M → Bool
  duplicate_from before [] = false
  duplicate_from before (m ∷ ms) =
      if any_equals before m then true else duplicate_from (before ++ m ∷ []) ms

  unfoldable pub has_duplicate_matcher : List M → Bool
  unfolding any_equals duplicate_from
  has_duplicate_matcher matchers = duplicate_from [] matchers
