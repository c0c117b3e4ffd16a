-- ===== src/Lookup/Finds/Rounds.antt =====
-- A round of lookupByPath loses no way to the route: it is below where the walk goes on, or behind
-- a skip node.
use fox.Prelude.{
  ℕ, ◌≡◌, ◌⊎◌, inl, inr, sym, subst, ◌∙◌, Bool, true, false, List, [], ◌∷◌, arith, Bytes, drop, All,
}
use fox.Route.{Route}
use fox.Node.{Node, params}
use fox.Node.Content.{IsValid}
use fox.Lookup.{Library}
use fox.Lookup.State.{
  SkipNode, PathWalk, found, missed, nested_outside, scan_out_of_fuel, Goto, walk, vm, backtrack,
  finish, push_when, drop_nodes,
}
use fox.Lookup.Step.{search_of, is_below, has_choices}
use fox.Lookup.Trail.{In}
use fox.Lookup.Goes.Params.{In-drop}
use fox.Lookup.Finds.Down.{IsSimple, Below}
use fox.Lookup.Finds.Ways.{filled_nodes, OverParam, OverStatic, Below-cases}

module _ {M E : Type 0} (lib : Library M E) (method : Bytes) (lazy : Bool) (root : Node M)
    (path : Bytes) (r : Route M) where
  abbrev pub IsFit : Node M → Type 0
  IsFit n = IsValid n × IsSimple n

  -- One of the skip nodes has a way to the route.
  abbrev pub Covers : List (SkipNode M) → Type 0
  Covers [] = ⊥
  Covers (f ∷ fs) =
      OverParam lib method r f.child_param_idx f.node (drop f.chars_matched path) ⊎ Covers fs

  -- What is left to try at the node has one.
  abbrev pub Leaves : PathWalk M E → Type 0
  Leaves s =
      ((s.skip_static ≡ false) × Below lib method r s.matched (search_of path s))
      ⊎ OverParam lib method r s.child_param_idx s.matched (search_of path s)

  abbrev pub IsFitWalk : PathWalk M E → Type 0
  IsFitWalk s =
      IsFit s.matched
      × ((s.skip_static ≡ false) → s.child_param_idx ≡ 0)
      × All (λ (f : SkipNode M). IsFit f.node) s.stack

  abbrev pub Keeps : Goto M E → Type 0
  Keeps (walk s) = IsFitWalk s × (Leaves s ⊎ Covers s.stack)
  Keeps (vm s) = ⊥
  Keeps (backtrack s) = All (λ (f : SkipNode M). IsFit f.node) s.stack × Covers s.stack
  Keeps (finish (found f) m) = Unit
  Keeps (finish missed m) = ⊥
  Keeps (finish nested_outside m) = ⊥
  Keeps (finish scan_out_of_fuel m) = ⊥

  -- Only the root has no parameters to try.
  abbrev pub IsApart : Type 0
  IsApart = (n : Node M) → has_choices n ≡ true → lib.same_node n root ≡ false

  pub All-push :
      (t : Bool) (f : SkipNode M) (fs : List (SkipNode M))
      → IsFit f.node
      → All (λ (g : SkipNode M). IsFit g.node) fs
      → All (λ (g : SkipNode M). IsFit g.node) (push_when t f fs)
  All-push true f fs h a = (h, a)
  All-push false f fs h a = a

  pub Covers-push :
      (t : Bool) (f : SkipNode M) (fs : List (SkipNode M)) → Covers fs → Covers (push_when t f fs)
  Covers-push true f fs c = inr c
  Covers-push false f fs c = c

  pub Covers-top :
      (t : Bool) (f : SkipNode M) (fs : List (SkipNode M))
      → t ≡ true
      → OverParam lib method r f.child_param_idx f.node (drop f.chars_matched path)
      → Covers (push_when t f fs)
  Covers-top true f fs e c = inl c
  Covers-top false f fs e c = absurd (ground (arith, e))

  pub choices-params :
      (n c : Node M) (k : ℕ) → In c (drop_nodes k (params n)) → has_choices n ≡ true
  choices-params n c k m =
      let e = filled_nodes c (params n) (In-drop k (params n) c m) in ground (arith, e)

  pub below-root :
      (s : PathWalk M E) → IsApart → has_choices s.matched ≡ true → is_below lib root s ≡ true
  below-root s a h = let e = a s.matched h in ground (arith, e)

  -- The static child that is found is the one on a way.
  pub Leaves-cases :
      (s : PathWalk M E) (b : ℕ) (rest : Bytes)
      → search_of path s ≡ b ∷ rest
      → IsFitWalk s
      → s.skip_static ≡ false
      → Leaves s
      → OverStatic lib method r s.matched (b ∷ rest)
        ⊎ OverParam lib method r s.child_param_idx s.matched (search_of path s)
  Leaves-cases s b rest d f e (inr o) = inr o
  Leaves-cases s b rest d (_, z, _) e (inl (_, w)) =
      elim (Below-cases lib method r s.matched (search_of path s) w) [
        | inl (q, _) ↦ absurd (ground (arith, d, q))
        | inr (inl (c, u, m, x, q)) ↦ inl (c, u, m, x, sym d ∙ q)
        | inr (inr o) ↦
            inr (subst (λ k. OverParam lib method r k s.matched (search_of path s)) (sym (z e)) o)
      ]
