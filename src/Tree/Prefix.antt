-- ===== src/Tree/Prefix.antt =====
-- longestPrefix cuts two texts where they part.
use fox.Prelude.{
  suc, ◌≡◌, ◌≢◌, refl, ap, [], ◌∷◌, ◌++◌, ◌==◌, inl, inr, arith, length, Bytes, Bool-cases, ==_iff,
}
use fox.Tree.{longest_prefix}

-- One of the texts is at its end, or they go on with different bytes.
abbrev pub Part : Bytes → Bytes → Type 0
Part [] b = Unit
Part (x ∷ a) [] = Unit
Part (x ∷ a) (y ∷ b) = x ≢ y

-- The length of the longest common prefix, and what is behind it.
pub longest_prefix-split :
    (k1 k2 : Bytes)
    → (p r1 r2 : Bytes) × (k1 ≡ p ++ r1)
      × (k2 ≡ p ++ r2)
      × (longest_prefix k1 k2 ≡ length p)
      × Part r1 r2
unfolding longest_prefix
longest_prefix-split [] k2 = ([], [], k2, refl, refl, refl, tt)
longest_prefix-split (x ∷ k1) [] = ([], x ∷ k1, [], refl, refl, refl, tt)
longest_prefix-split (x ∷ k1) (y ∷ k2) = elim (Bool-cases (x == y)) [
  | inl e ↦
      let (p, r1, r2, a, b, l, d) = longest_prefix-split k1 k2 in
      let q : x ≡ y = (==_iff x y).0 e in
      (x ∷ p, r1, r2, ap (λ t. x ∷ t) a, rw q (ap (λ t. y ∷ t) b), rw e (ap suc l), d)
  | inr e ↦ ([], x ∷ k1, y ∷ k2, refl, refl, rw e refl, λ q. ground (arith, ==_iff x y))
]
