-- ===== src/Slices/Overlap.antt =====
-- Overlap finds a common element of two sorted slices.
use Prim.Native.Nat.{Ordering}
use mathlib.Core.List.{Mem, mem-cons, not-mem-nil}
use mathlib.Core.Logic.Or
use mathlib.Core.HLevel.{⊥_prop}
use fox.Prelude.{
  ◌≡◌, refl, ◌↔◌, ◌≢◌, ◌⊎◌, inl, inr, Bool-cases, true, false, List, [], ◌∷◌, arith, All, Bytes,
  compare_bytes, compare_bytes-eq, compare_bytes-lt,
}
use fox.Slices.{Ordered, overlap_from, overlap}

Ordering-cases : (o : Ordering) → (o ≡ Ordering.lt) ⊎ ((o ≡ Ordering.eq) ⊎ (o ≡ Ordering.gt))
Ordering-cases Ordering.lt = inl refl
Ordering-cases Ordering.eq = inr (inl refl)
Ordering-cases Ordering.gt = inr (inr refl)

module _ {ℓ} {E : Type ℓ} (o : Ordered E) where
  -- No element is below an earlier one.
  abbrev pub Ascending : List E → Type ℓ
  Ascending [] = Unit
  Ascending (x ∷ xs) = All (λ y. o.cmp x y ≢ Ordering.gt) xs × Ascending xs

  abbrev pub Common : List E → List E → Type ℓ
  Common s1 s2 = (a : E) × Mem a s1 × Mem a s2

  -- What is below the head of an ascending slice is not in it.
  below_head :
      (x y : E) (ys : List E)
      → o.cmp x y ≡ Ordering.lt
      → All (λ z. o.cmp y z ≢ Ordering.gt) ys
      → ¬ Mem x (y ∷ ys)
  below_head x y [] h s m =
      Or.elim ⊥_prop (mem-cons.0 m) (λ e. ground (arith, o.cmp_eq x y)) not-mem-nil
  below_head x y (z ∷ zs) h s m =
      Or.elim ⊥_prop (mem-cons.0 m) (λ e. ground (arith, o.cmp_eq x y))
        (λ k.
          Or.elim ⊥_prop (mem-cons.0 k) (λ e. s.0 (rw (← e) ((o.cmp_lt x y).0 h)))
            (λ n. below_head x y zs h s.1 (mem-cons.1 (Or.inr n))))

  overlap_from_sound : (xs ys : List E) → overlap_from o.cmp xs ys ≡ true → Common xs ys
  unfolding overlap_from
  overlap_from_sound [] ys h = ground arith
  overlap_from_sound (x ∷ xs) [] h = ground arith
  overlap_from_sound (x ∷ xs) (y ∷ ys) h = elim (Ordering-cases (o.cmp x y)) [
    | inl e ↦
        let (a, m, n) = overlap_from_sound xs (y ∷ ys) (ground (arith, e)) in
        (a, mem-cons.1 (Or.inr m), n)
    | inr (inl e) ↦ (x, mem-cons.1 (Or.inl refl), mem-cons.1 (Or.inl ((o.cmp_eq x y).0 e)))
    | inr (inr e) ↦
        let (a, m, n) = overlap_from_sound (x ∷ xs) ys (ground (arith, e)) in
        (a, m, mem-cons.1 (Or.inr n))
  ]

  overlap_from_complete :
      (xs ys : List E) (a : E)
      → Ascending xs
      → Ascending ys
      → overlap_from o.cmp xs ys ≡ false
      → Mem a xs
      → ¬ Mem a ys
  unfolding overlap_from
  overlap_from_complete [] ys a s t h m n = not-mem-nil m
  overlap_from_complete (x ∷ xs) [] a s t h m n = not-mem-nil n
  overlap_from_complete (x ∷ xs) (y ∷ ys) a s t h m n = elim (Ordering-cases (o.cmp x y)) [
    | inl e ↦
        Or.elim ⊥_prop (mem-cons.0 m) (λ q. below_head x y ys e t.0 (rw q at n))
          (λ k. overlap_from_complete xs (y ∷ ys) a s.1 t (ground (arith, e)) k n)
    | inr (inl e) ↦ ground (arith, e)
    | inr (inr e) ↦
        Or.elim ⊥_prop (mem-cons.0 n) (λ q. below_head y x xs ((o.cmp_lt y x).1 e) s.0 (rw q at m))
          (λ k. overlap_from_complete (x ∷ xs) ys a s t.1 (ground (arith, e)) m k)
  ]

  overlap_complete :
      (s1 s2 : List E)
      → Ascending s1
      → Ascending s2
      → (s1 ≡ []) × (s2 ≡ []) ⊎ Common s1 s2
      → overlap o.cmp s1 s2 ≡ true
  unfolding overlap
  overlap_complete [] [] s t c = refl
  overlap_complete [] (y ∷ ys) s t (inl (_, e)) = cc
  overlap_complete [] (y ∷ ys) s t (inr (a, m, n)) = absurd (not-mem-nil m)
  overlap_complete (x ∷ xs) ys s t (inl (e, _)) = cc
  overlap_complete (x ∷ xs) ys s t (inr (a, m, n)) =
      elim (Bool-cases (overlap_from o.cmp (x ∷ xs) ys)) [
        | inl h ↦ h
        | inr h ↦ absurd (overlap_from_complete (x ∷ xs) ys a s t h m n)
      ]

  overlap_sound :
      (s1 s2 : List E) → overlap o.cmp s1 s2 ≡ true → (s1 ≡ []) × (s2 ≡ []) ⊎ Common s1 s2
  unfolding overlap
  overlap_sound [] [] h = inl (refl, refl)
  overlap_sound [] (y ∷ ys) h = ground arith
  overlap_sound (x ∷ xs) ys h = inr (overlap_from_sound (x ∷ xs) ys h)

  -- On two ascending slices Overlap answers true exactly when both are empty or they share an
  -- element.
  pub overlap_iff :
      (s1 s2 : List E)
      → Ascending s1
      → Ascending s2
      → (overlap o.cmp s1 s2 ≡ true) ↔ ((s1 ≡ []) × (s2 ≡ []) ⊎ Common s1 s2)
  overlap_iff s1 s2 s t = (overlap_sound s1 s2, overlap_complete s1 s2 s t)

-- Methods and other strings.
abbrev pub bytes_ordered : Ordered Bytes
bytes_ordered = record { cmp = compare_bytes; cmp_eq = compare_bytes-eq; cmp_lt = compare_bytes-lt }
