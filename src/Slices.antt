-- ===== src/Slices.antt =====
-- internal/slicesutil/slicesutil.go: EqualUnsorted and Overlap.
pub mod Equal
pub mod Overlap
use fox.Prelude.{
  ℕ, ◌≡◌, ◌↔◌, Bool, true, false, ◌&&◌, not, Option, none, some, List, [], ◌∷◌, ◌==◌, if◌then◌else◌,
  length,
}
use Prim.Native.Nat.{Ordering, compare}
use mathlib.Core.Option

-- A comparable element type: `==` decides equality.
pub record Comparable {ℓ} (E : Type ℓ) : Type ℓ where
  pub equal : E → E → Bool
  pub equal_iff : (a b : E) → (equal a b ≡ true) ↔ (a ≡ b)

-- A slice element type of `cmp.Ordered`: `cmp.Compare` with the laws that Overlap relies on.
pub record Ordered {ℓ} (E : Type ℓ) : Type ℓ where
  pub cmp : E → E → Ordering
  pub cmp_eq : (a b : E) → (cmp a b ≡ Ordering.eq) ↔ (a ≡ b)
  pub cmp_lt : (a b : E) → (cmp a b ≡ Ordering.lt) ↔ (cmp b a ≡ Ordering.gt)

-- The initial `matched := make([]bool, n)`.
unfoldable pub unmarked {ℓ} : {A : Type ℓ} → List A → List Bool
unmarked [] = []
unmarked (b ∷ bs) = false ∷ unmarked bs

module _ {ℓ} {E : Type ℓ} (equal : E → E → Bool) where
  -- The inner loop: the marks after the first unmarked element that equals `a` is marked.
  -- `none` is a loop that ends without a match.
  unfoldable pub claim : E → List E → List Bool → Option (List Bool)
  claim a [] ms = none
  claim a (b ∷ bs) [] = none
  claim a (b ∷ bs) (m ∷ ms) =
      if not m && equal a b then some (true ∷ ms) else Option.map (λ r. m ∷ r) (claim a bs ms)

  -- The outer loop.
  unfoldable pub claim_all : List E → List E → List Bool → Bool
  claim_all [] bs ms = true
  claim_all (a ∷ as') bs ms = elim (claim a bs ms) [
    | none ↦ false
    | some ms' ↦ claim_all as' bs ms'
  ]

  unfoldable pub equal_unsorted : List E → List E → Bool
  unfolding claim claim_all unmarked
  equal_unsorted s1 s2 = if length s1 == length s2 then claim_all s1 s2 (unmarked s2) else false

module _ {ℓ} {E : Type ℓ} (cmp : E → E → Ordering) where
  -- The loop over the two indices: each round drops the head of one slice.
  unfoldable pub overlap_from : List E → List E → Bool
  overlap_from [] ys = false
  overlap_from (x ∷ xs) [] = false
  overlap_from (x ∷ xs) (y ∷ ys) = elim (cmp x y) [
    | Ordering.lt ↦ overlap_from xs (y ∷ ys)
    | Ordering.gt ↦ overlap_from (x ∷ xs) ys
    | Ordering.eq ↦ true
  ]

  unfoldable pub overlap : List E → List E → Bool
  unfolding overlap_from
  overlap [] [] = true
  overlap [] (y ∷ ys) = false
  overlap (x ∷ xs) ys = overlap_from (x ∷ xs) ys
