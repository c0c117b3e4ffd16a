-- ===== src/Tree/Insert/Clashes.antt =====
-- The insertion of a route at a node: the tests of modeInsert, and what they decide.
use mathlib.Core.List.{Mem, Perm}
use fox.Prelude.{
  ◌≡◌, ◌↔◌, refl, Bool, true, ◌&&◌, ◌||◌, Option, none, some, List, [], ◌∷◌, if◌then◌else◌, All,
  Bool-cases, inl, inr, ◌⊎◌, arith, Bytes, compare_bytes,
}
use fox.Slices.{Comparable, overlap}
use fox.Slices.Overlap.{Ascending, Common, bytes_ordered, overlap_iff}
use fox.Route.{Route, is_nil}
use fox.Route.Matchers.{matchers_equal-iff_perm, matchers_within_iff}
use fox.Node.{Node, routes, wildcards}
use fox.Tree.Insert.{
  filter_routes, all_routes, is_conflict, shadows, leaf_conflicts, parent_conflicts,
  catch_all_conflicts,
}

nil_iff : (xs : List Bytes) → (is_nil xs ≡ true) ↔ (xs ≡ [])
nil_iff [] = (λ h. refl, λ h. refl)
nil_iff (x ∷ xs) = (λ h. absurd (ground (arith, h)), λ h. cc h)

module _ {M : Type 0} where
  pub cons-ne : {x : Route M} {xs : List (Route M)} → x ∷ xs ≡ [] → ⊥
  cons-ne h = cc h

  -- No route of the list has the property.
  abbrev pub NoneIs : (Route M → Type 0) → List (Route M) → Type 0
  NoneIs P rs = All (λ r. ¬ P r) rs

  -- A test that decides `P` on the routes with `S` finds none of a list just if none has it.
  filter_routes-nil :
      (f : Route M → Bool) (S P : Route M → Type 0) (rs : List (Route M))
      → ((r : Route M) → S r → (f r ≡ true) ↔ P r)
      → All S rs
      → (filter_routes f rs ≡ []) ↔ NoneIs P rs
  filter_routes-nil f S P [] d a = (λ h. tt, λ h. refl)
  filter_routes-nil f S P (r ∷ rs) d (a, b) = elim (Bool-cases (f r)) [
    | inl e ↦ (λ h. absurd (cons-ne (rw e at h)), λ h. absurd (h.0 ((d r a).0 e)))
    | inr e ↦ (
      λ h. (
        λ k. absurd (ground (arith, e, (d r a).1 k)),
        (filter_routes-nil f S P rs d b).0 (rw e at h),
      ),
      λ h. rw e ((filter_routes-nil f S P rs d b).1 h.1),
    )
  ]

  -- The routes of the parent that a catch-all would be shadowed by.
  abbrev pub parent_routes : Option (Node M) → Route M → List (Route M)
  parent_routes none route = []
  parent_routes (some p) route = if route.pattern.optional_catch_all then routes p else []

  -- The methods of a route are sorted.
  abbrev pub IsSorted : Route M → Type 0
  IsSorted r = Ascending bytes_ordered r.methods

  -- Two routes that some request cannot tell apart: the same matchers, and a method in common, or
  -- none of them names a method.
  abbrev pub Clash : Route M → Route M → Type 0
  Clash route r =
      Perm r.matchers route.matchers
      × (((r.methods ≡ []) × (route.methods ≡ [])) ⊎ Common bytes_ordered r.methods route.methods)

  -- `r` takes requests that `by` is meant for: its matchers are among those of `by`, and it is for all
  -- methods or has one in common.
  abbrev pub Shadow : Route M → Route M → Type 0
  Shadow r by =
      All (λ a. Mem a by.matchers) r.matchers
      × ((r.methods ≡ []) ⊎ Common bytes_ordered r.methods by.methods)

  module _ (c : Comparable M) where
    is_conflict_iff :
        (route r : Route M)
        → IsSorted route
        → IsSorted r
        → (is_conflict c.equal route r ≡ true) ↔ Clash route r
    unfolding is_conflict
    is_conflict_iff route r s t =
        let m = matchers_equal-iff_perm c r route.matchers in
        let o = overlap_iff bytes_ordered r.methods route.methods t s in
        (
          λ h. (m.0 (ground (arith, h)), o.0 (ground (arith, h))),
          λ (a, b). ground (arith, m.1 a, o.1 b),
        )

    shadows_iff :
        (r by : Route M) → IsSorted r → IsSorted by → (shadows c.equal r by ≡ true) ↔ Shadow r by
    unfolding shadows
    shadows_iff r by s t =
        let m = matchers_within_iff c r by.matchers in
        (λ h. (m.0 (ground (arith, h)), there (ground (arith, h))), λ (a, b). rw (m.1 a) (back b))
      where
        o :
            (overlap bytes_ordered.cmp r.methods by.methods ≡ true)
            ↔ (((r.methods ≡ []) × (by.methods ≡ [])) ⊎ Common bytes_ordered r.methods by.methods)
        o = overlap_iff bytes_ordered r.methods by.methods s t

        there :
            (is_nil r.methods || overlap compare_bytes r.methods by.methods) ≡ true
            → (r.methods ≡ []) ⊎ Common bytes_ordered r.methods by.methods
        there h = elim (Bool-cases (is_nil r.methods)) [
          | inl e ↦ inl ((nil_iff r.methods).0 e)
          | inr e ↦ elim (o.0 (rw e at h)) [ inl k ↦ inl k.0 | inr k ↦ inr k ]
        ]

        back :
            (r.methods ≡ []) ⊎ Common bytes_ordered r.methods by.methods
            → (is_nil r.methods || overlap compare_bytes r.methods by.methods) ≡ true
        back (inl e) = rw ((nil_iff r.methods).1 e) refl
        back (inr k) = ground (arith, o.1 (inr k))

    pub leaf_conflicts-nil :
        (n : Node M) (route : Route M)
        → IsSorted route
        → All IsSorted (routes n)
        → (leaf_conflicts c.equal n route ≡ []) ↔ NoneIs (Clash route) (routes n)
    unfolding leaf_conflicts
    leaf_conflicts-nil n route s a =
        filter_routes-nil (is_conflict c.equal route) IsSorted (Clash route) (routes n)
          (λ r t. is_conflict_iff route r s t) a

    pub parent_conflicts-nil :
        (p : Option (Node M)) (route : Route M)
        → IsSorted route
        → All IsSorted (parent_routes p route)
        → (parent_conflicts c.equal p route ≡ [])
          ↔ NoneIs (λ r. Shadow r route) (parent_routes p route)
    unfolding parent_conflicts
    parent_conflicts-nil none route s a = (λ h. tt, λ h. refl)
    parent_conflicts-nil (some p) route s a = elim (Bool-cases route.pattern.optional_catch_all) [
      | inl e ↦
          rw (parent_conflicts, e)
            (filter_routes-nil (λ r. shadows c.equal r route) IsSorted (λ r. Shadow r route)
              (routes p) (λ r t. shadows_iff r route t s) (rw e at a))
      | inr e ↦ rw (parent_conflicts, e) (λ h. tt, λ h. refl)
    ]

    pub catch_all_conflicts-nil :
        (n : Node M) (route : Route M)
        → IsSorted route
        → All IsSorted (all_routes (wildcards n))
        → (catch_all_conflicts c.equal n route ≡ [])
          ↔ NoneIs
              (λ r. (r.pattern.optional_catch_all ≡ true) × Shadow route r)
              (all_routes (wildcards n))
    unfolding catch_all_conflicts
    catch_all_conflicts-nil n route s a =
        filter_routes-nil (λ r. r.pattern.optional_catch_all && shadows c.equal route r) IsSorted
          (λ r. (r.pattern.optional_catch_all ≡ true) × Shadow route r) (all_routes (wildcards n))
          (λ r t.
            let d = shadows_iff route r s t in
            ((λ h. (ground (arith, h), d.0 (ground (arith, h)))), (λ (o, h). rw (o, d.1 h) refl)))
          a
