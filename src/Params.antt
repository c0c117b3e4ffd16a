-- ===== src/Params.antt =====
-- params.go: the parameters that a lookup captures, in the order of the pattern.
pub mod First
use fox.Prelude.{Bool, true, false, List, [], ◌∷◌, if◌then◌else◌, Bytes, beq}

pub record Param : Type 0 where
  pub key : Bytes
  pub value : Bytes

unfoldable pub get : List Param → Bytes → Bytes
get [] name = []
get (p ∷ params) name = let rest = get params name in if beq p.key name then p.value else rest

unfoldable pub has : List Param → Bytes → Bool
has [] name = false
has (p ∷ params) name = let rest = has params name in if beq p.key name then true else rest
