-- ===== src/Route/Matchers.antt =====
-- What matchersEqual, matchersWithin and hasDuplicateMatcher decide, for matchers whose Equal is
-- equality, as it is for the matchers of matcher.go.
use mathlib.Core.List.{Mem, mem-cons, not-mem-nil, Perm}
use mathlib.Core.Logic.Or
use mathlib.Core.HLevel.{⊥_prop}
use fox.Prelude.{◌≡◌, refl, inl, inr, ◌↔◌, true, false, List, [], ◌∷◌, arith, Bool-cases, All}
use fox.Slices.{Comparable, equal_unsorted}
use fox.Slices.Equal.{equal_unsorted-iff_perm}
use fox.Route.{Route, matchers_equal, any_equal, all_within, matchers_within}

module _ {M : Type 0} (c : Comparable M) where
  -- The two sets of matchers are the same, each matcher as often, in whatever order.
  pub matchers_equal-iff_perm :
      (r : Route M) (ms : List M) → (matchers_equal c.equal r ms ≡ true) ↔ Perm r.matchers ms
  unfolding matchers_equal equal_unsorted
  matchers_equal-iff_perm r ms = equal_unsorted-iff_perm c r.matchers ms

  any_equal_sound : (a : M) (bs : List M) → any_equal c.equal a bs ≡ true → Mem a bs
  unfolding any_equal
  any_equal_sound a [] h = ground arith
  any_equal_sound a (b ∷ bs) h = elim (Bool-cases (c.equal a b)) [
    | inl e ↦ mem-cons.1 (Or.inl ((c.equal_iff a b).0 e))
    | inr e ↦ mem-cons.1 (Or.inr (any_equal_sound a bs (ground (arith, e))))
  ]

  any_equal_complete : (a : M) (bs : List M) → any_equal c.equal a bs ≡ false → ¬ Mem a bs
  unfolding any_equal
  any_equal_complete a [] h = not-mem-nil
  any_equal_complete a (b ∷ bs) h = λ m.
      Or.elim ⊥_prop (mem-cons.0 m) (λ e. ground (arith, c.equal_iff a b))
        (any_equal_complete a bs (ground arith))

  all_within_iff : (as' ms : List M) → (all_within c.equal as' ms ≡ true) ↔ All (λ a. Mem a ms) as'
  unfolding all_within
  all_within_iff [] ms = (λ h. tt, λ h. refl)
  all_within_iff (a ∷ as') ms = elim (Bool-cases (any_equal c.equal a ms)) [
    | inl e ↦ rw e (
      λ h. (any_equal_sound a ms e, (all_within_iff as' ms).0 h),
      λ h. (all_within_iff as' ms).1 h.1,
    )
    | inr e ↦ rw e (λ h. ground arith, λ h. absurd (any_equal_complete a ms e h.0))
  ]

  -- matchersWithin answers true exactly if every matcher of the route is among the given ones, for
  -- matchers whose Equal is equality.
  pub matchers_within_iff :
      (r : Route M) (ms : List M)
      → (matchers_within c.equal r ms ≡ true) ↔ All (λ a. Mem a ms) r.matchers
  unfolding matchers_within
  matchers_within_iff r ms = all_within_iff r.matchers ms
