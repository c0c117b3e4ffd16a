-- ===== src/Slices/Equal.antt =====
-- EqualUnsorted decides equality up to order.
use mathlib.Core.Option
use mathlib.Core.List
use mathlib.Core.List.{Mem, mem-cons, Perm, not-mem-nil}
use mathlib.Core.List.Perm
use mathlib.Core.Logic.Or
use mathlib.Core.HLevel.{⊥_prop}
use native.Mathlib.Bridge.{from_ℕ}
use fox.Prelude.{
  suc, ◌+◌, ◌≡◌, refl, sym, ap, ◌∙◌, ◌↔◌, ◌⊎◌, inl, inr, Bool, true, false, none, some, List, [],
  ◌∷◌, ◌++◌, length, Option-cases, Bool-cases, arith, append-nil,
}
use fox.Slices.{Comparable, unmarked, claim, claim_all, equal_unsorted}

module _ {ℓ} {E : Type ℓ} (c : Comparable E) where
  -- The elements not marked.
  abbrev open_ones : List E → List Bool → List E
  open_ones [] ms = []
  open_ones (b ∷ bs) [] = []
  open_ones (b ∷ bs) (true ∷ ms) = open_ones bs ms
  open_ones (b ∷ bs) (false ∷ ms) = b ∷ open_ones bs ms

  open_ones-unmarked : (bs : List E) → open_ones bs (unmarked bs) ≡ bs
  unfolding unmarked
  open_ones-unmarked [] = refl
  open_ones-unmarked (b ∷ bs) = ap (λ r. b ∷ r) (open_ones-unmarked bs)

  claim_step :
      (a b : E) (bs : List E) (ms ms' : List Bool)
      → claim c.equal a (b ∷ bs) (false ∷ ms) ≡ some ms'
      → (a ≡ b) × (ms' ≡ true ∷ ms)
        ⊎ ((r : List Bool) × (claim c.equal a bs ms ≡ some r) × (ms' ≡ false ∷ r))
  unfolding claim
  claim_step a b bs ms ms' h = elim (Bool-cases (c.equal a b)) [
    | inl same ↦ inl ((c.equal_iff a b).0 same, sym (ground arith))
    | inr other ↦
        let (r, hr, e) = (Option.map-eq-some_iff _ _).0 (rw other at h) in inr (r, hr, sym e)
  ]

  claim-some :
      (a : E) (bs : List E) (ms ms' : List Bool)
      → claim c.equal a bs ms ≡ some ms'
      → Perm (open_ones bs ms) (a ∷ open_ones bs ms')
        × (length (open_ones bs ms) ≡ length (open_ones bs ms') + 1)
  unfolding claim
  claim-some a [] ms ms' h = ground arith
  claim-some a (b ∷ bs) [] ms' h = ground arith
  claim-some a (b ∷ bs) (true ∷ ms) ms' h =
      let (r, hr, e) = (Option.map-eq-some_iff _ _).0 h in rw (← e) (claim-some a bs ms r hr)
  claim-some a (b ∷ bs) (false ∷ ms) ms' h = elim (claim_step a b bs ms ms' h) [
    | inl (e, f) ↦ rw (e, f) (Perm.refl _, omega arith)
    | inr (r, hr, f) ↦
        let (p, l) = claim-some a bs ms r hr in
        rw f (Perm.trans (Perm.cons b p) (Perm.swap a b _), omega arith)
  ]

  claim-none :
      (a : E) (bs : List E) (ms : List Bool)
      → claim c.equal a bs ms ≡ none
      → ¬ Mem a (open_ones bs ms)
  unfolding claim
  claim-none a [] ms h = not-mem-nil
  claim-none a (b ∷ bs) [] h = not-mem-nil
  claim-none a (b ∷ bs) (true ∷ ms) h = claim-none a bs ms (ground arith)
  claim-none a (b ∷ bs) (false ∷ ms) h = λ m.
      Or.elim ⊥_prop (mem-cons.0 m) (λ e. ground (arith, c.equal_iff a b))
        (claim-none a bs ms (ground arith))

  claim_all-true :
      (as' bs : List E) (ms : List Bool)
      → claim_all c.equal as' bs ms ≡ true
      → (rest : List E) × Perm (open_ones bs ms) (as' ++ rest)
        × (length (open_ones bs ms) ≡ length as' + length rest)
  unfolding claim_all
  claim_all-true [] bs ms h = (open_ones bs ms, Perm.refl _, omega arith)
  claim_all-true (a ∷ as') bs ms h = elim (Option-cases (claim c.equal a bs ms)) [
    | inl e ↦ ground (arith, e)
    | inr (ms', e) ↦
        let (rest, p, l) = claim_all-true as' bs ms' (ground (arith, e)) in
        let (q, k) = claim-some a bs ms ms' e in (rest, Perm.trans q (Perm.cons a p), omega arith)
  ]

  claim_all-perm :
      (as' rest bs : List E) (ms : List Bool)
      → Perm (open_ones bs ms) (as' ++ rest)
      → claim_all c.equal as' bs ms ≡ true
  unfolding claim_all
  claim_all-perm [] rest bs ms p = refl
  claim_all-perm (a ∷ as') rest bs ms p = elim (Option-cases (claim c.equal a bs ms)) [
    | inl e ↦ absurd (claim-none a bs ms e ((Perm.mem_iff p).1 (mem-cons.1 (Or.inl refl))))
    | inr (ms', e) ↦
        rw (e, claim_all)
          (claim_all-perm as' rest bs ms'
            (Perm.cons_inv (Perm.trans (Perm.symm (claim-some a bs ms ms' e).0) p)))
  ]

  eq_nil : (xs : List E) → length xs ≡ 0 → xs ≡ []
  eq_nil [] h = refl
  eq_nil (x ∷ xs) h = absurd (omega arith)

  length-from_ℕ : (xs : List E) → length xs ≡ from_ℕ (List.length xs)
  length-from_ℕ [] = refl
  length-from_ℕ (x ∷ xs) = ap suc (length-from_ℕ xs)

  perm-length : (xs ys : List E) → Perm xs ys → length xs ≡ length ys
  perm-length xs ys p = length-from_ℕ xs ∙ ap from_ℕ (Perm.length-eq p) ∙ sym (length-from_ℕ ys)

  -- EqualUnsorted answers true exactly on two slices with the same elements, each as often, in
  -- whatever order.
  pub equal_unsorted-iff_perm :
      (s1 s2 : List E) → (equal_unsorted c.equal s1 s2 ≡ true) ↔ Perm s1 s2
  unfolding equal_unsorted
  equal_unsorted-iff_perm s1 s2 = (
    λ h.
        let (rest, p, l) = claim_all-true s1 s2 (unmarked s2) (ground arith) in
        let e : rest ≡ [] = eq_nil rest (ground (arith, ap length (open_ones-unmarked s2))) in
        Perm.symm (rw (open_ones-unmarked, e, append-nil) at p),
    λ p. ground (
      arith,
      perm-length s1 s2 p,
      claim_all-perm s1 [] s2 (unmarked s2) (rw (open_ones-unmarked, append-nil) (Perm.symm p)),
    ),
  )
