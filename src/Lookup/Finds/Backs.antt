-- ===== src/Lookup/Finds/Backs.antt =====
-- A round of lookupByPath loses no way to the route: the wildcards, the end of the path, and
-- Backtrack.
use fox.Prelude.{
  ℕ, zero, suc, ◌≡◌, ◌⊎◌, inl, inr, refl, sym, ap, ◌∙◌, Bool, true, false, ◌&&◌, not, Option, none,
  some, List, [], ◌∷◌, arith, Bytes, beq, Bool-cases, Option-cases, All,
}
use fox.Route.{Route}
use fox.Node.{Node, nil, label, key, routes, wildcards}
use fox.Lookup.{Library, LookupState}
use fox.Lookup.State.{
  SkipNode, PathWalk, Found, missed, Goto, walk, backtrack, finish, resume, with_memo, drop_nodes,
  no_nodes,
}
use fox.Lookup.Step.{search_of, or_else, pop}
use fox.Lookup.Finds.Down.{wildcards-nil, Among}
use fox.Lookup.Finds.Ways.{statics-head, HeadIs-ne, append-ne, Below-cases}
use fox.Lookup.Step.{
  leaf_match, empty_match, end_slash, any_route, is_optional, end_of_path, back, pop, slash,
  parent_allows,
}
use fox.Lookup.State.{has_suffix}
use fox.Lookup.Accept.{first_match}
use fox.Lookup.Wildcards.{try_wildcards}
use fox.Lookup.Finds.Down.{first_match-found}
use fox.Lookup.Trail.{Takes}
use fox.Lookup.Finds.Rounds.{IsFit, Covers, Leaves, IsFitWalk, Keeps}

no_nodes-drop : (M : Type 0) (k : ℕ) → no_nodes (drop_nodes {M = M} k nil) ≡ true
no_nodes-drop M zero = refl
no_nodes-drop M (suc k) = refl

module _ {M E : Type 0} (lib : Library M E) (method : Bytes) (lazy : Bool) (root : Node M)
    (path : Bytes) (r : Route M) where
  abbrev Kept : Goto M E → Type 0
  Kept = Keeps lib method lazy root path r

  abbrev Covered : List (SkipNode M) → Type 0
  Covered = Covers lib method lazy root path r

  abbrev Fit : PathWalk M E → Type 0
  Fit = IsFitWalk lib method lazy root path r

  pub try_wildcards-Keeps :
      (s : PathWalk M E)
      → Fit s
      → Covered s.stack
      → Kept (try_wildcards lib method lazy path root (record s { skip_static = false }))
  unfolding try_wildcards
  try_wildcards-Keeps s (f, z, a) c =
      let e : no_nodes (drop_nodes s.child_wildcard_idx (wildcards s.matched)) ≡ true =
        ap (λ ws. no_nodes (drop_nodes s.child_wildcard_idx ws)) (wildcards-nil s.matched f.1)
        ∙ no_nodes-drop M s.child_wildcard_idx in
      rw (try_wildcards, e) (a, c)

  or_else-Keeps :
      (s : PathWalk M E) (m : LookupState M E) (k : PathWalk M E → Goto M E)
      (c : Option (Found M) × LookupState M E)
      → ((m' : LookupState M E) → Kept (k (with_memo s m')))
      → Kept (or_else (with_memo s m) k c)
  or_else-Keeps s m k (some f, m') g = tt
  or_else-Keeps s m k (none, m') g = g m'

  -- At the end of the path the route is one of the node's, or behind a skip node.
  pub end_of_path-Keeps :
      (s : PathWalk M E)
      → r.nested ≡ false
      → Takes lib method r
      → Fit s
      → search_of path s ≡ []
      → Leaves lib method lazy root path r s ⊎ Covered s.stack
      → Kept (end_of_path lib method lazy path s)
  unfolding end_of_path leaf_match
  end_of_path-Keeps s n t (f, z, a) d (inr c) =
      or_else-Keeps s s.memo
        (λ s'.
          or_else s' (λ s''. or_else s'' backtrack (end_slash lib method lazy path s''))
            (empty_match lib method lazy is_optional false s'.matched s'.captured s'.memo))
        (leaf_match lib method lazy any_route false s.matched s.captured s.memo)
        (λ m.
          or_else-Keeps s m (λ s''. or_else s'' backtrack (end_slash lib method lazy path s''))
            (empty_match lib method lazy is_optional false s.matched s.captured m)
            (λ m'.
              or_else-Keeps s m' backtrack (end_slash lib method lazy path (with_memo s m'))
                (λ m''. (a, c))))
  end_of_path-Keeps s n t (f, z, a) d (inl l) =
      elim (Option-cases (first_match lib method any_route (routes s.matched) s.memo).0) [
        | inr (i, e) ↦ rw (end_of_path, leaf_match, e) tt
        | inl e ↦ absurd (
            first_match-found lib method r any_route (routes s.matched) s.memo n t refl (of_leaf l)
              e)
      ]
    where
      of_leaf : Leaves lib method lazy root path r s → Among r (routes s.matched)
      of_leaf (inr o) = absurd (append-ne o.1 o.2 o.4 (sym o.8 ∙ d))
      of_leaf (inl (_, b)) = elim (Below-cases lib method r s.matched (search_of path s) b) [
        | inl (_, m) ↦ m
        | inr (inl (c, u, m, _, e)) ↦
            let (h, v) = statics-head s.matched c f.0 m in
            absurd (HeadIs-ne (label c) (key c) u h (sym e ∙ d))
        | inr (inr o) ↦ absurd (append-ne o.1 o.2 o.4 (sym o.8 ∙ d))
      ]

  pop-Keeps :
      (s : PathWalk M E) (stack : List (SkipNode M))
      → All (λ (f : SkipNode M). IsFit lib method lazy root path r f.node) stack
      → Covered stack
      → Kept (elim stack as (λ _. Goto M E) [
        | [] ↦ finish missed s.memo
        | f ∷ rest ↦ walk (resume s f rest)
      ])
  pop-Keeps s [] a c = absurd c
  pop-Keeps s (f ∷ rest) (h, a) (inl o) = ((h, (λ e. absurd (ground (arith, e))), a), inl (inr o))
  pop-Keeps s (f ∷ rest) (h, a) (inr c) = ((h, (λ e. absurd (ground (arith, e))), a), inr c)

  pub back-Keeps : (s : PathWalk M E) → Kept (backtrack s) → Kept (back lib method lazy path s)
  unfolding back
  back-Keeps s (a, c) =
      elim (Bool-cases (beq (search_of path s) slash && not (has_suffix path (b'/' ∷ b'/' ∷ [])))) [
        | inr e ↦ rw (back, e) (pop-Keeps s s.stack a c)
        | inl e ↦
            rw (back, e)
              (or_else-Keeps s s.memo pop
                (leaf_match lib method lazy parent_allows true s.matched s.captured s.memo)
                (λ m. pop-Keeps (with_memo s m) s.stack a c))
      ]
