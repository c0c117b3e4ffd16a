-- ===== src/Lookup/Finds/Segments.antt =====
-- A round of lookupByPath loses no way to the route: the parameters.
use fox.Prelude.{
  ℕ, suc, ◌+◌, ◌<◌, ◌≡◌, ◌⊎◌, inl, inr, refl, sym, subst, ap, ◌∙◌, Bool, true, false, ◌&&◌, ◌||◌,
  not, none, some, List, [], ◌∷◌, ◌==◌, arith, Bytes, length, take, drop, ltb, Bool-cases,
  Option-cases, take-length_append, drop-length_append,
}
use fox.Route.{Route}
use fox.Node.{Node, count, head, params, wildcards}
use fox.Lookup.{Library}
use fox.Lookup.State.{
  SkipNode, PathWalk, Goto, walk, backtrack, Try, went, fell, skip_node, push_if, push_when,
  step_into, drop_nodes, no_nodes, record_param,
}
use fox.Lookup.Step.{search_of, is_below, pick_param, segment_end, try_param, try_params}
use fox.Lookup.Texts.{drop-drop}
use fox.Lookup.Trail.{In, MayCapture}
use fox.Lookup.Goes.Params.{In-drop, pick_param_lem}
use fox.Lookup.Finds.Down.{params-segment, Below}
use fox.Lookup.Finds.Ways.{
  params-IsValid, filled_nodes, drop_nodes_drop, segment_end-append, OverParam, segment-ends, Picks,
  pick_param-found,
}
use fox.Lookup.Finds.Rounds.{
  IsFit, Covers, Leaves, IsFitWalk, Keeps, IsApart, All-push, Covers-push, Covers-top,
  choices-params, below-root,
}

empty_length : (s : Bytes) → length s ≡ 0 → s ≡ []
empty_length [] h = refl
empty_length (x ∷ s) h = absurd (omega arith)

module _ {M E : Type 0} (lib : Library M E) (method : Bytes) (lazy : Bool) (root : Node M)
    (path : Bytes) (r : Route M) where
  abbrev Kept : Goto M E → Type 0
  Kept = Keeps lib method lazy root path r

  abbrev Covered : List (SkipNode M) → Type 0
  Covered = Covers lib method lazy root path r

  abbrev Fit : PathWalk M E → Type 0
  Fit = IsFitWalk lib method lazy root path r

  abbrev OverParams : PathWalk M E → Type 0
  OverParams s = OverParam lib method r s.child_param_idx s.matched (search_of path s)

  -- The parameters go on without a loss, or fall through when only skip nodes are left.
  abbrev pub IfParams : PathWalk M E → Try M E → Type 0
  IfParams s (went g) = Kept g
  IfParams s (fell s') = (s' ≡ record s { skip_static = false }) × Covered s.stack

  -- The way over a parameter takes a whole segment.
  whole_segment :
      (s : PathWalk M E)
      → IsFit lib method lazy root path r s.matched
      → (o : OverParam lib method r s.child_param_idx s.matched (search_of path s))
      → segment_end (search_of path s) ≡ length o.1
  whole_segment s (v, p) (c, w, u, m, f, i, q, b, e) =
      ap segment_end e
      ∙ segment_end-append w u i (
          segment-ends lib method r s.matched c u v p
            (In-drop s.child_param_idx (params s.matched) c m) b)

  -- What is picked is the parameter of the way, or stands before it.
  picked :
      (s : PathWalk M E)
      → IsFit lib method lazy root path r s.matched
      → (o : OverParams s)
      → Picks lib method r lazy o.0
          (take (segment_end (search_of path s)) (search_of path s))
          0
          (drop_nodes s.child_param_idx (params s.matched))
  picked s f (c, w, u, m, ne, i, q, b, e) =
      let l = whole_segment s f (c, w, u, m, ne, i, q, b, e) in
      let t : take (segment_end (search_of path s)) (search_of path s) ≡ w =
        ap (λ k. take k (search_of path s)) l
        ∙ ap (λ x. take (length w) x) e
        ∙ take-length_append w u in
      pick_param-found lib method r lazy c
        (take (segment_end (search_of path s)) (search_of path s)) 0
        (drop_nodes s.child_param_idx (params s.matched))
        (subst (λ x. MayCapture lib (head c).regexp x) (sym t) q) m

  abbrev behind : PathWalk M E → Bool → ℕ → Node M → PathWalk M E
  behind s t i p =
      record (step_into
        (push_if t (record s { skip_static = false }) (skip_node s (i + 1 + s.child_param_idx) 0 0))
        p (segment_end (search_of path s))
        (record_param lazy s.captured (take (segment_end (search_of path s)) (search_of path s)))) {
          child_param_idx = 0;
        }

  behind-Keeps :
      (s : PathWalk M E) (t : Bool) (i : ℕ) (p : Node M)
      → Fit s
      → In p (params s.matched)
      → (suc i < count (drop_nodes s.child_param_idx (params s.matched)) → t ≡ true)
      → pick_param lib method lazy 0
          (drop_nodes s.child_param_idx (params s.matched))
          (take (segment_end (search_of path s)) (search_of path s))
        ≡ some (i, p)
      → OverParams s ⊎ Covered s.stack
      → Kept (walk (behind s t i p))
  behind-Keeps s t i p (f, z, a) m push e k = (
    (
      (params-IsValid s.matched p f.0 m, (params-segment s.matched p f.1 m).0),
      (λ h. refl),
      All-push lib method lazy root path r t (skip_node s (i + 1 + s.child_param_idx) 0 0) s.stack f
          a,
    ),
    by_way k,
  )
    where
      by_way :
          OverParams s ⊎ Covered s.stack
          → Leaves lib method lazy root path r (behind s t i p)
            ⊎ Covered (push_when t (skip_node s (i + 1 + s.child_param_idx) 0 0) s.stack)
      by_way (inr c) = inr (
          Covers-push lib method lazy root path r t (skip_node s (i + 1 + s.child_param_idx) 0 0)
            s.stack c)
      by_way (inl o) =
          let (c, w, u, mc, ne, n, q, b, g) = o in
          let (j, x, h, y) = picked s f o in
          let ij : i ≡ j = ground (arith, sym e ∙ h) in
          let px : p ≡ x = ground (arith, sym e ∙ h) in
          elim y [
            | inl xc ↦
                let d : drop (s.chars_matched + segment_end (search_of path s)) path ≡ u =
                  sym (drop-drop s.chars_matched (segment_end (search_of path s)) path)
                  ∙ ap (λ l. drop l (search_of path s)) (whole_segment s f o)
                  ∙ ap (λ l. drop (length w) l) g
                  ∙ drop-length_append w u in
                inl (
                  inl (
                    refl,
                    subst
                        (λ y'.
                          Below lib method r y'
                            (drop (s.chars_matched + segment_end (search_of path s)) path))
                        (sym (px ∙ xc)) (subst (λ v'. Below lib method r c v') (sym d) b),
                  ))
            | inr (md, lt) ↦
                let more : t ≡ true = push (omega (arith, ij, lt)) in
                let at : i + 1 + s.child_param_idx ≡ suc j + s.child_param_idx =
                  omega (arith, ij) in
                let md' : In c (drop_nodes (i + 1 + s.child_param_idx) (params s.matched)) =
                  subst (λ k'. In c (drop_nodes k' (params s.matched))) (sym at)
                    (subst (λ cs. In c cs)
                      (drop_nodes_drop (suc j) s.child_param_idx (params s.matched)) md) in
                inr (
                  Covers-top lib method lazy root path r t
                    (skip_node s (i + 1 + s.child_param_idx) 0 0) s.stack more
                    (c, w, u, md', ne, n, q, b, g))
          ]

  try_param-IfParams :
      (s : PathWalk M E)
      → Fit s
      → OverParams s ⊎ Covered s.stack
      → IfParams s (
          try_param lib method lazy
            (record s { skip_static = false })
            (drop_nodes s.child_param_idx (params s.matched))
            (search_of path s))
  unfolding try_param
  try_param-IfParams s f k = elim (Bool-cases (segment_end (search_of path s) == 0)) [
    | inl e ↦ rw (try_param, e) (nothing_read e k)
    | inr e ↦
        elim (Option-cases (
          pick_param lib method lazy 0 (drop_nodes s.child_param_idx (params s.matched))
            (take (segment_end (search_of path s)) (search_of path s)))) [
              | inl g ↦ rw (try_param, e, g) (refl, none_picked g k)
              | inr ((i, p), g) ↦
                  let (m, u, z, q) =
                    pick_param_lem lib method lazy 0
                      (drop_nodes s.child_param_idx (params s.matched))
                      (take (segment_end (search_of path s)) (search_of path s)) i p g in
                  rw (try_param, e, g)
                    (behind-Keeps s
                      (ltb (i + 1) (count (drop_nodes s.child_param_idx (params s.matched)))
                        || not (no_nodes (wildcards s.matched)))
                      i p f (In-drop s.child_param_idx (params s.matched) p m)
                      (λ h. ground (arith, h)) g k)
            ]
  ]
    where
      nothing_read :
          segment_end (search_of path s) == 0 ≡ true
          → OverParams s ⊎ Covered s.stack
          → Kept (
              backtrack (
                push_if
                  (not (no_nodes (wildcards s.matched)))
                  (record s { skip_static = false })
                  (skip_node s (count (params s.matched)) 0 0)))
      nothing_read e (inr c) = (
        All-push lib method lazy root path r (not (no_nodes (wildcards s.matched)))
            (skip_node s (count (params s.matched)) 0 0) s.stack f.0 f.2,
        Covers-push lib method lazy root path r (not (no_nodes (wildcards s.matched)))
            (skip_node s (count (params s.matched)) 0 0) s.stack c,
      )
      nothing_read e (inl o) =
          let z : length o.1 ≡ 0 = ground (arith, whole_segment s f.0 o, e) in
          absurd (o.4 (empty_length o.1 z))

      none_picked :
          pick_param lib method lazy 0
              (drop_nodes s.child_param_idx (params s.matched))
              (take (segment_end (search_of path s)) (search_of path s))
            ≡ none
          → OverParams s ⊎ Covered s.stack
          → Covered s.stack
      none_picked g (inr c) = c
      none_picked g (inl o) =
          let (j, x, h, y) = picked s f.0 o in absurd (ground (arith, sym g ∙ h))

  pub try_params-IfParams :
      (s : PathWalk M E)
      → IsApart lib method lazy root path r
      → Fit s
      → OverParams s ⊎ Covered s.stack
      → IfParams s (try_params lib method lazy root path s)
  unfolding try_params
  try_params-IfParams s a f k =
      elim (Bool-cases
        (not (no_nodes (drop_nodes s.child_param_idx (params s.matched))) && is_below lib root s)) [
          | inl e ↦ rw (try_params, e) (try_param-IfParams s f k)
          | inr e ↦ rw (try_params, e) (refl, not_tried e k)
        ]
    where
      not_tried :
          (not (no_nodes (drop_nodes s.child_param_idx (params s.matched))) && is_below lib root s)
            ≡ false
          → OverParams s ⊎ Covered s.stack
          → Covered s.stack
      not_tried e (inr c) = c
      not_tried e (inl o) =
          let h = filled_nodes o.0 (drop_nodes s.child_param_idx (params s.matched)) o.3 in
          let g =
            below-root lib method lazy root path r s a
              (choices-params lib method lazy root path r s.matched o.0 s.child_param_idx o.3) in
          absurd (ground (arith, e, h, g))
