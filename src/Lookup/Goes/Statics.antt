-- ===== src/Lookup/Goes/Statics.antt =====
-- lookupByPath: where the static child leads.
use fox.Prelude.{
  ℕ, zero, suc, ◌+◌, ◌-◌, ◌≤◌, ◌<◌, ◌≡◌, inl, inr, refl, sym, subst, ap, ◌∙◌, Bool, true, false,
  ◌&&◌, ◌||◌, Option, none, some, List, [], ◌∷◌, ◌++◌, ◌==◌, arith, Bytes, take, length,
  Option-cases, Bool-cases, List-cases, append-nil, append_assoc, take-append-drop, length-drop,
  leb, leb→le, beq, beq_iff, ==_iff,
}
use fox.Node.{Node, Nodes, nil, cons, node, nth, key, statics, get_static_edge}
use fox.Node.Search.{lower}
use fox.Node.Content.{HeadIs, IsValid}
use fox.Node.Edges.Valid.{get_static_edge-some}
use fox.Node.Edges.Update.{get_static_edge-IsValid}
use fox.Lookup.{Library, LookupState}
use fox.Lookup.State.{
  PathWalk, Found, walk, Try, went, fell, with_memo, push_if, skip_node, step_into,
}
use fox.Lookup.Step.{
  search_of, is_below, has_choices, is_search_slash, match_trailing_slash, or_fall, try_child,
  static_at, try_static,
}
use fox.Lookup.Texts.{take_append_take, is_search_slash-append, has_suffix-search}
use fox.Lookup.Trail.{In, first, later, by_static, IsPlain, ArePlain}
use fox.Lookup.Goes.{todo, IsReady, IsSooner, IsKept, Goes, ended, walks}
use fox.Lookup.Goes.Leaf.{IfFound, match_trailing_slash-IfFound, IsFound}

module _ {M : Type 0} where
  nth-In : (cs : Nodes M) (i : ℕ) (c : Node M) → nth cs i ≡ some c → In c cs
  nth-In nil i c h = absurd (ground (arith, h))
  nth-In (cons d ds) zero c h =
      let e : d ≡ c = ground (arith, h) in subst (λ x. In x (cons d ds)) e first
  nth-In (cons d ds) (suc i) c h = later (nth-In ds i c h)

  ArePlain-In : {c : Node M} {cs : Nodes M} → In c cs → ArePlain cs → IsPlain c
  ArePlain-In first p = p.0
  ArePlain-In (later m) p = ArePlain-In m p.1

  pub statics-IsPlain : (n c : Node M) → IsPlain n → In c (statics n) → IsPlain c
  statics-IsPlain (node h rs st ps ws) c p m = ArePlain-In m p.0

  pub get_static_edge-In :
      (n : Node M) (b idx : ℕ) (child : Node M)
      → IsValid n
      → get_static_edge n b ≡ some (idx, child)
      → In child (statics n)
  get_static_edge-In (node h rs st ps ws) b idx child v e =
      let (i, (q, l)) = get_static_edge-some (node h rs st ps ws) b idx child v.0 e in
      nth-In st (lower st b) child q

HeadIs-one : (b : ℕ) (k : Bytes) → HeadIs b k → length k ≡ 1 → k ≡ b ∷ []
HeadIs-one b [] h l = absurd h
HeadIs-one b (x ∷ []) h l = ap (λ y. y ∷ []) h
HeadIs-one b (x ∷ y ∷ k) h l = absurd (omega arith)

HeadIs-pos : (b : ℕ) (k : Bytes) → HeadIs b k → 1 ≤ length k
HeadIs-pos b [] h = absurd h
HeadIs-pos b (x ∷ k) h = omega arith

-- The shortcut for a key of one byte compares as the other test does.
key-prefix :
    (b : ℕ) (rest k : Bytes)
    → HeadIs b k
    → ((length k == 1)
        || (leb (length k) (length (b ∷ rest)) && beq (take (length k) (b ∷ rest)) k))
      ≡ true
    → (length k ≤ length (b ∷ rest)) × (take (length k) (b ∷ rest) ≡ k)
key-prefix b rest k h t = elim (Bool-cases (length k == 1)) [
  | inl e ↦ let q = (==_iff (length k) 1).0 e in (omega (arith, q), rw (HeadIs-one b k h q) refl)
  | inr e ↦
      let u : (leb (length k) (length (b ∷ rest)) && beq (take (length k) (b ∷ rest)) k) ≡ true =
        ground (arith, t, e) in
      let l : leb (length k) (length (b ∷ rest)) ≡ true = ground (arith, u) in
      let q : beq (take (length k) (b ∷ rest)) k ≡ true = ground (arith, u) in
      (leb→le (length k) (length (b ∷ rest)) l, (beq_iff (take (length k) (b ∷ rest)) k).0 q)
]

module _ {M E : Type 0} (lib : Library M E) (method : Bytes) (lazy : Bool) (root : Node M)
    (path : Bytes) (before : List Bytes) where
  -- A part of the walk goes right, or falls through with the walk unchanged but for its memory.
  abbrev pub IfWent : PathWalk M E → Try M E → Type 0
  IfWent s (went g) = Goes lib method lazy root path before s g
  IfWent s (fell s') = (memo : LookupState M E) × (s' ≡ with_memo s memo)

  IsSooner-static :
      (s : PathWalk M E)
      → s.skip_static ≡ false
      → s.child_param_idx ≡ 0
      → s.child_wildcard_idx ≡ 0
      → IsSooner lib method lazy root path before s 0 0 0
  IsSooner-static s e a b = (((λ h. (refl, refl, refl)), (λ h. (refl, refl))), inl less)
    where
      less :
          todo true 0 0 s.matched
          < todo s.skip_static s.child_param_idx s.child_wildcard_idx s.matched
      less = rw (e, a, b) (omega arith)

  push_if-IsKept :
      (t : Bool) (s : PathWalk M E) (a b c : ℕ)
      → IsSooner lib method lazy root path before s a b c
      → IsKept lib method lazy root path before s (push_if t s (skip_node s a b c)).stack
  push_if-IsKept true s a b c h = inr (a, b, c, refl, h)
  push_if-IsKept false s a b c h = inl refl

  or_fall-IfWent :
      (s : PathWalk M E) (p : Option (Found M) × LookupState M E)
      → IfFound (IsFound lib method lazy root path before) p
      → IfWent s (or_fall s p)
  or_fall-IfWent s (some f, memo) h = ended f memo h
  or_fall-IfWent s (none, memo) h = (memo, refl)

  step_into-child :
      (t : Bool) (s : PathWalk M E) (child : Node M) (b : ℕ) (rest : Bytes)
      → IsReady lib method lazy root path before s
      → s.skip_static ≡ false
      → search_of path s ≡ b ∷ rest
      → In child (statics s.matched)
      → IsPlain child
      → IsValid child
      → HeadIs b (key child)
      → (length (key child) ≤ length (b ∷ rest))
        × (take (length (key child)) (b ∷ rest) ≡ key child)
      → Goes lib method lazy root path before s
          (walk (step_into (push_if t s (skip_node s 0 0 0)) child (length (key child)) s.captured))
  step_into-child t s child b rest ((vs, tl, rc, k, v, p), (z, o)) e d m q u h (l, f) =
      let (a, w, c) = z e in
      walks (step_into (push_if t s (skip_node s 0 0 0)) child (length (key child)) s.captured)
        (push_if-IsKept t s 0 0 0 (IsSooner-static s e a w)) ([], sym (append-nil s.captured))
        (
          (vs, rw (← text) (by_static tl m), rc, omega (arith, l, len), u, q),
          ((λ h. z e), (λ h. (w, c))),
        )
        (omega (arith, HeadIs-pos b (key child) h))
    where
      len : length (b ∷ rest) ≡ length path - s.chars_matched
      len = sym (ap length d) ∙ length-drop s.chars_matched path

      text :
          take s.chars_matched path ++ key child ≡ take (s.chars_matched + length (key child)) path
      text =
          ap (λ x. take s.chars_matched path ++ x)
            (sym f ∙ ap (λ x. take (length (key child)) x) (sym d))
          ∙ take_append_take s.chars_matched (length (key child)) path

  try_child-IfWent :
      (s : PathWalk M E) (child : Node M) (b : ℕ) (rest : Bytes)
      → IsReady lib method lazy root path before s
      → s.skip_static ≡ false
      → search_of path s ≡ b ∷ rest
      → In child (statics s.matched)
      → IsPlain child
      → IsValid child
      → HeadIs b (key child)
      → IfWent s (try_child lib method lazy root s child (b ∷ rest))
  unfolding try_child
  try_child-IfWent s child b rest r e d m q u h =
      elim (Bool-cases (
        (length (key child) == 1)
        || (leb (length (key child)) (length (b ∷ rest))
            && beq (take (length (key child)) (b ∷ rest)) (key child)))) [
              | inl t ↦
                  rw (try_child, t)
                    (step_into-child (has_choices s.matched && is_below lib root s) s child b rest r
                      e d m q u h (key-prefix b rest (key child) h t))
              | inr t ↦ elim (Bool-cases (is_search_slash (key child) (b ∷ rest))) [
                | inr x ↦ rw (try_child, t, x) (s.memo, refl)
                | inl x ↦
                    rw (try_child, t, x)
                      (or_fall-IfWent s
                        (match_trailing_slash lib method lazy child s.captured s.memo)
                        (slash_child r x))
              ]
            ]
    where
      slash_child :
          IsReady lib method lazy root path before s
          → is_search_slash (key child) (b ∷ rest) ≡ true
          → IfFound
              (IsFound lib method lazy root path before)
              (match_trailing_slash lib method lazy child s.captured s.memo)
      slash_child ((vs, tl, rc, k, v, p), o) x =
          let (ks, g, l) = is_search_slash-append (key child) (b ∷ rest) x in
          let text : take s.chars_matched path ++ key child ≡ path ++ b'/' ∷ [] =
            ap (λ y. take s.chars_matched path ++ y) ks
            ∙ sym (append_assoc (take s.chars_matched path) (b ∷ rest) (b'/' ∷ []))
            ∙ ap (λ y. (take s.chars_matched path ++ y) ++ b'/' ∷ []) (sym d)
            ∙ ap (λ y. y ++ b'/' ∷ []) (take-append-drop s.chars_matched path) in
          match_trailing_slash-IfFound lib method lazy root path before (some s.matched) child
            s.captured vs s.memo (rw (← text) (by_static tl m))
            (has_suffix-search path (key child) s.chars_matched b rest d x) rc

  static_at-IfWent :
      (s : PathWalk M E)
      → IsReady lib method lazy root path before s
      → s.skip_static ≡ false
      → IfWent s (static_at lib method lazy root path s)
  unfolding static_at
  static_at-IfWent s r e = elim (List-cases (search_of path s)) [
    | inl d ↦ rw (static_at, d) (s.memo, refl)
    | inr (b, rest, d) ↦ elim (Option-cases (get_static_edge s.matched b)) [
      | inl g ↦ rw (static_at, d, g) (s.memo, refl)
      | inr ((idx, child), g) ↦ rw (static_at, d, g) (with_child b rest idx child d g)
    ]
  ]
    where
      with_child :
          (b : ℕ) (rest : Bytes) (idx : ℕ) (child : Node M)
          → search_of path s ≡ b ∷ rest
          → get_static_edge s.matched b ≡ some (idx, child)
          → IfWent s (try_child lib method lazy root s child (b ∷ rest))
      with_child b rest idx child d g =
          let ((vs, tl, rc, k, v, p), o) = r in
          let (h, u, l, z) = get_static_edge-IsValid s.matched b idx child v g in
          let m = get_static_edge-In s.matched b idx child v g in
          let q = statics-IsPlain s.matched child p m in
          try_child-IfWent s child b rest r e d m q u h

  pub try_static-IfWent :
      (s : PathWalk M E)
      → IsReady lib method lazy root path before s
      → IfWent s (try_static lib method lazy root path s)
  unfolding try_static
  try_static-IfWent s r = by_flag s.skip_static refl
    where
      by_flag :
          (b : Bool)
          → s.skip_static ≡ b
          → IfWent s (elim b as (λ _. Try M E) [
            | true ↦ fell s
            | false ↦ static_at lib method lazy root path s
          ])
      by_flag true e = (s.memo, refl)
      by_flag false e = static_at-IfWent s r e
