-- ===== src/Lookup/Finds/Statics.antt =====
-- A round of lookupByPath loses no way to the route: the static child.
use fox.Prelude.{
  ℕ, ◌+◌, ◌≤◌, ◌≡◌, ◌⊎◌, inl, inr, refl, sym, subst, ap, ◌∙◌, Bool, true, false, ◌&&◌, ◌||◌, Option,
  none, some, ◌∷◌, ◌++◌, ◌==◌, arith, Bytes, length, length-append, take, drop, leb, beq, beq_iff,
  Bool-cases, Option-cases, take-length_append, drop-length_append,
}
use fox.Route.{Route}
use fox.Node.{Node, label, key, statics, get_static_edge}
use fox.Node.Edges.Update.{get_static_edge-IsValid}
use fox.Lookup.{Library, LookupState}
use fox.Lookup.State.{
  PathWalk, Found, walk, Try, went, fell, skip_node, push_if, push_when, step_into, with_memo,
}
use fox.Lookup.Step.{
  search_of, is_below, has_choices, is_search_slash, match_trailing_slash, or_fall, try_child,
  static_at, try_static,
}
use fox.Lookup.Texts.{drop-drop}
use fox.Lookup.Trail.{In}
use fox.Lookup.Goes.Statics.{get_static_edge-In}
use fox.Lookup.Finds.Down.{statics-IsSimple, get_static_edge-found, Below}
use fox.Lookup.Finds.Ways.{statics-head, HeadIs-first, OverParam}
use fox.Lookup.Finds.Rounds.{
  IsFit, Covers, Leaves, IsFitWalk, Keeps, IsApart, All-push, Covers-push, Covers-top,
  choices-params, below-root, Leaves-cases,
}

module _ {M E : Type 0} (lib : Library M E) (method : Bytes) (lazy : Bool) (root : Node M)
    (path : Bytes) (r : Route M) where
  -- The static part goes on without a loss, or falls through when only parameters or skip nodes are left.
  abbrev pub IfStatic : PathWalk M E → Try M E → Type 0
  IfStatic s (went g) = Keeps lib method lazy root path r g
  IfStatic s (fell s') =
      (m : LookupState M E) × (s' ≡ with_memo s m)
      × (OverParam lib method r s.child_param_idx s.matched (search_of path s)
          ⊎ Covers lib method lazy root path r s.stack)

  same-child :
      (s : PathWalk M E) (c child : Node M) (u : Bytes) (b i : ℕ) (rest : Bytes)
      → IsFit lib method lazy root path r s.matched
      → In c (statics s.matched)
      → b ∷ rest ≡ key c ++ u
      → get_static_edge s.matched b ≡ some (i, child)
      → c ≡ child
  same-child s c child u b i rest (v, p) m e g =
      let (h, vc) = statics-head s.matched c v m in
      let (j, f) = get_static_edge-found s.matched c v m in
      let l : label c ≡ b = HeadIs-first (label c) (key c) u b rest h e in
      let f' : get_static_edge s.matched b ≡ some (j, c) = rw l at f in ground (arith, sym f' ∙ g)

  no-child :
      (s : PathWalk M E) (c : Node M) (u : Bytes) (b : ℕ) (rest : Bytes)
      → IsFit lib method lazy root path r s.matched
      → In c (statics s.matched)
      → b ∷ rest ≡ key c ++ u
      → get_static_edge s.matched b ≡ none
      → ⊥
  no-child s c u b rest (v, p) m e g =
      let (h, vc) = statics-head s.matched c v m in
      let (j, f) = get_static_edge-found s.matched c v m in
      let l : label c ≡ b = HeadIs-first (label c) (key c) u b rest h e in
      let f' : get_static_edge s.matched b ≡ some (j, c) = rw l at f in
      absurd (ground (arith, sym f' ∙ g))

  -- Before the static child, with something left to read.
  key-prefix :
      (k u s : Bytes)
      → s ≡ k ++ u
      → ((length k == 1) || (leb (length k) (length s) && beq (take (length k) s) k)) ≡ true
  key-prefix k u s e =
      let t : take (length k) s ≡ k = ap (λ x. take (length k) x) e ∙ take-length_append k u in
      let q : beq (take (length k) s) k ≡ true = (beq_iff (take (length k) s) k).1 t in
      let l : length k ≤ length s = omega (arith, ap length e, length-append k u) in
      ground (arith, q, l)

  -- Where the ways may be before the static child is tried.
  abbrev Before : PathWalk M E → Node M → Bytes → Type 0
  Before s child search =
      ((u : Bytes) × Below lib method r child u × (search ≡ key child ++ u))
      ⊎ (OverParam lib method r s.child_param_idx s.matched (search_of path s)
          ⊎ Covers lib method lazy root path r s.stack)

  static-Keeps :
      (s : PathWalk M E) (child : Node M)
      → IsApart lib method lazy root path r
      → IsFitWalk lib method lazy root path r s
      → s.skip_static ≡ false
      → IsFit lib method lazy root path r child
      → Before s child (search_of path s)
      → Keeps lib method lazy root path r (
          walk (
            step_into
              (push_if (has_choices s.matched && is_below lib root s) s (skip_node s 0 0 0))
              child
              (length (key child))
              s.captured))
  static-Keeps s child ap' (f, z, a) e fc before = (
    (
      fc,
      z,
      All-push lib method lazy root path r (has_choices s.matched && is_below lib root s)
          (skip_node s 0 0 0) s.stack f a,
    ),
    by_way before,
  )
    where
      by_way :
          Before s child (search_of path s)
          → Leaves lib method lazy root path r (
              step_into
                (push_if (has_choices s.matched && is_below lib root s) s (skip_node s 0 0 0))
                child
                (length (key child))
                s.captured)
            ⊎ Covers lib method lazy root path r (
                push_when
                  (has_choices s.matched && is_below lib root s)
                  (skip_node s 0 0 0)
                  s.stack)
      by_way (inl (u, b, q)) =
          let d : drop (s.chars_matched + length (key child)) path ≡ u =
            sym (drop-drop s.chars_matched (length (key child)) path)
            ∙ ap (λ x. drop (length (key child)) x) q
            ∙ drop-length_append (key child) u in
          inl (inl (e, subst (λ x. Below lib method r child x) (sym d) b))
      by_way (inr (inl o)) =
          let h = choices-params lib method lazy root path r s.matched o.0 s.child_param_idx o.3 in
          let g = below-root lib method lazy root path r s ap' h in
          inr (
            Covers-top lib method lazy root path r (has_choices s.matched && is_below lib root s)
              (skip_node s 0 0 0) s.stack (ground (arith, h, g))
              (subst (λ k. OverParam lib method r k s.matched (search_of path s)) (z e) o))
      by_way (inr (inr c)) = inr (
          Covers-push lib method lazy root path r (has_choices s.matched && is_below lib root s)
            (skip_node s 0 0 0) s.stack c)

  or_fall-IfStatic :
      (s : PathWalk M E) (c : Option (Found M) × LookupState M E)
      → OverParam lib method r s.child_param_idx s.matched (search_of path s)
        ⊎ Covers lib method lazy root path r s.stack
      → IfStatic s (or_fall s c)
  or_fall-IfStatic s (some f, m) k = tt
  or_fall-IfStatic s (none, m) k = (m, refl, k)

  try_child-IfStatic :
      (s : PathWalk M E) (child : Node M) (search : Bytes)
      → search_of path s ≡ search
      → IsApart lib method lazy root path r
      → IsFitWalk lib method lazy root path r s
      → s.skip_static ≡ false
      → IsFit lib method lazy root path r child
      → Before s child search
      → IfStatic s (try_child lib method lazy root s child search)
  unfolding try_child
  try_child-IfStatic s child search d a f e fc before =
      elim (Bool-cases (
        (length (key child) == 1)
        || (leb (length (key child)) (length search)
            && beq (take (length (key child)) search) (key child)))) [
              | inl t ↦
                  rw (try_child, t)
                    (static-Keeps s child a f e fc (subst (λ x. Before s child x) (sym d) before))
              | inr t ↦ elim before [
                | inl (u, b, q) ↦ absurd (ground (arith, t, key-prefix (key child) u search q))
                | inr k ↦ elim (Bool-cases (is_search_slash (key child) search)) [
                  | inr x ↦ rw (try_child, t, x) (s.memo, refl, k)
                  | inl x ↦
                      rw (try_child, t, x)
                        (or_fall-IfStatic s
                          (match_trailing_slash lib method lazy child s.captured s.memo) k)
                ]
              ]
            ]

  static_at-IfStatic :
      (s : PathWalk M E) (b : ℕ) (rest : Bytes)
      → search_of path s ≡ b ∷ rest
      → IsApart lib method lazy root path r
      → IsFitWalk lib method lazy root path r s
      → s.skip_static ≡ false
      → Leaves lib method lazy root path r s ⊎ Covers lib method lazy root path r s.stack
      → IfStatic s (static_at lib method lazy root path s)
  unfolding static_at
  static_at-IfStatic s b rest d a f e k = elim (Option-cases (get_static_edge s.matched b)) [
    | inl g ↦ rw (static_at, d, g) (s.memo, refl, none_left g k)
    | inr ((i, child), g) ↦
        rw (static_at, d, g)
          (try_child-IfStatic s child (b ∷ rest) d a f e (fits i child g) (child_left i child g k))
  ]
    where
      fits :
          (i : ℕ) (child : Node M)
          → get_static_edge s.matched b ≡ some (i, child)
          → IsFit lib method lazy root path r child
      fits i child g =
          let (h, v, l, z) = get_static_edge-IsValid s.matched b i child f.0.0 g in
          (
            v,
            statics-IsSimple s.matched child f.0.1 (get_static_edge-In s.matched b i child f.0.0 g),
          )

      none_left :
          get_static_edge s.matched b ≡ none
          → Leaves lib method lazy root path r s ⊎ Covers lib method lazy root path r s.stack
          → OverParam lib method r s.child_param_idx s.matched (search_of path s)
            ⊎ Covers lib method lazy root path r s.stack
      none_left g (inr c) = inr c
      none_left g (inl l) = elim (Leaves-cases lib method lazy root path r s b rest d f e l) [
        | inl (c, u, m, x, q) ↦ absurd (no-child s c u b rest f.0 m q g)
        | inr o ↦ inl o
      ]

      child_left :
          (i : ℕ) (child : Node M)
          → get_static_edge s.matched b ≡ some (i, child)
          → Leaves lib method lazy root path r s ⊎ Covers lib method lazy root path r s.stack
          → Before s child (b ∷ rest)
      child_left i child g (inr c) = inr (inr c)
      child_left i child g (inl l) =
          elim (Leaves-cases lib method lazy root path r s b rest d f e l) [
            | inl (c, u, m, x, q) ↦
                subst (λ y. Before s y (b ∷ rest)) (same-child s c child u b i rest f.0 m q g)
                  (inl (u, x, q))
            | inr o ↦ inr (inl o)
          ]

  pub try_static-IfStatic :
      (s : PathWalk M E) (b : ℕ) (rest : Bytes)
      → search_of path s ≡ b ∷ rest
      → IsApart lib method lazy root path r
      → IsFitWalk lib method lazy root path r s
      → Leaves lib method lazy root path r s ⊎ Covers lib method lazy root path r s.stack
      → IfStatic s (try_static lib method lazy root path s)
  unfolding try_static
  try_static-IfStatic s b rest d a f k = by_flag s.skip_static refl
    where
      params_left :
          s.skip_static ≡ true
          → Leaves lib method lazy root path r s ⊎ Covers lib method lazy root path r s.stack
          → OverParam lib method r s.child_param_idx s.matched (search_of path s)
            ⊎ Covers lib method lazy root path r s.stack
      params_left e (inr c) = inr c
      params_left e (inl (inr o)) = inl o
      params_left e (inl (inl (q, x))) = absurd (ground (arith, e, q))

      by_flag :
          (t : Bool)
          → s.skip_static ≡ t
          → IfStatic s (elim t as (λ _. Try M E) [
            | true ↦ fell s
            | false ↦ static_at lib method lazy root path s
          ])
      by_flag true e = (s.memo, refl, params_left e k)
      by_flag false e = static_at-IfStatic s b rest d a f e k
