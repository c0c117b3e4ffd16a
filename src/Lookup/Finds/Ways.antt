-- ===== src/Lookup/Finds/Ways.antt =====
-- The ways from a node to the route: over a static child, or over one of the parameters; and which
-- parameter the lookup picks.
use fox.Prelude.{
  ℕ, zero, suc, ◌+◌, ◌≤◌, ◌<◌, ◌≡◌, ◌≢◌, ◌⊎◌, inl, inr, refl, sym, subst, ap, ◌∙◌, Bool, true,
  false, none, some, [], ◌∷◌, ◌++◌, ◌==◌, arith, Bytes, length, Bool-cases, Option-cases,
  index_byte, ==_iff,
}
use fox.Route.{Route}
use fox.Node.{Node, Nodes, nil, cons, node, count, label, head, key, routes, params, statics}
use fox.Node.Content.{HeadIs, IsValid, AreStatics}
use fox.Lookup.{Library}
use fox.Lookup.State.{drop_nodes, no_nodes}
use fox.Lookup.Step.{pick_param, segment_end}
use fox.Lookup.Trail.{In, first, later, MayCapture}
use fox.Lookup.Goes.Params.{AreKeyed-In}
use fox.Lookup.Finds.Down.{
  AreSlashed-In, IsSimple, params-segment, In-nil, Among, Below, at_leaf, over_static, over_param,
}

module _ {M : Type 0} where
  AreStatics-In :
      {c : Node M} {cs : Nodes M} → In c cs → AreStatics cs → HeadIs (label c) (key c) × IsValid c
  AreStatics-In first v = (v.0, v.1)
  AreStatics-In (later m) v = AreStatics-In m v.2

  pub statics-head :
      (n c : Node M) → IsValid n → In c (statics n) → HeadIs (label c) (key c) × IsValid c
  statics-head (node h rs st ps ws) c v m = AreStatics-In m v.1

  pub params-IsValid : (n c : Node M) → IsValid n → In c (params n) → IsValid c
  params-IsValid (node h rs st ps ws) c v m = AreKeyed-In m v.2

  count-In : (c : Node M) (cs : Nodes M) → In c cs → 1 ≤ count cs
  count-In c nil m = elim m [ ]
  count-In c (cons d cs) m = omega arith

  pub filled_nodes : (c : Node M) (cs : Nodes M) → In c cs → no_nodes cs ≡ false
  filled_nodes c nil m = elim m [ ]
  filled_nodes c (cons d cs) m = refl

  pub drop_nodes_drop :
      (j k : ℕ) (cs : Nodes M) → drop_nodes j (drop_nodes k cs) ≡ drop_nodes (j + k) cs
  drop_nodes_drop j zero cs = let e : j + 0 ≡ j = omega arith in rw e refl
  drop_nodes_drop zero (suc k) nil = let e : 0 + suc k ≡ suc k = omega arith in rw e refl
  drop_nodes_drop (suc j) (suc k) nil =
      let e : suc j + suc k ≡ suc (j + suc k) = omega arith in rw e refl
  drop_nodes_drop j (suc k) (cons c cs) =
      let e : j + suc k ≡ suc (j + k) = omega arith in rw e (drop_nodes_drop j k cs)

pub HeadIs-first :
    (l : ℕ) (k u : Bytes) (b : ℕ) (rest : Bytes) → HeadIs l k → b ∷ rest ≡ k ++ u → l ≡ b
HeadIs-first l [] u b rest h e = absurd h
HeadIs-first l (x ∷ k) u b rest h e = ground (arith, h, e)

pub HeadIs-ne : (l : ℕ) (k u : Bytes) → HeadIs l k → k ++ u ≢ []
HeadIs-ne l [] u h e = h
HeadIs-ne l (x ∷ k) u h e = absurd (ground (arith, e))

pub append-ne : (v u : Bytes) → v ≢ [] → v ++ u ≢ []
append-ne [] u h e = h refl
append-ne (x ∷ v) u h e = absurd (ground (arith, e))

-- A text without a slash, before the end or a slash, is a whole segment.
abbrev pub EndsSegment : Bytes → Type 0
EndsSegment [] = Unit
EndsSegment (c ∷ u) = c ≡ b'/'

pub segment_end-append :
    (v u : Bytes) → index_byte v b'/' ≡ none → EndsSegment u → segment_end (v ++ u) ≡ length v
unfolding segment_end index_byte
segment_end-append [] [] n e = refl
segment_end-append [] (c ∷ u) n e =
    let q : c == b'/' ≡ true = (==_iff c b'/').1 e in rw (segment_end, index_byte, q) refl
segment_end-append (x ∷ v) u n e = elim (Bool-cases (x == b'/')) [
  | inl t ↦ absurd (ground (arith, n, t))
  | inr t ↦ elim (Option-cases (index_byte v b'/')) [
    | inr (i, f) ↦ absurd (ground (arith, n, t, f))
    | inl f ↦
        let ih = segment_end-append v u f e in
        elim (Option-cases (index_byte (v ++ u) b'/')) [
          | inl g ↦
              let q : length (v ++ u) ≡ length v = ground (arith, ih, g) in
              rw (segment_end, index_byte, t, g) (ap (λ k. suc k) q)
          | inr (j, g) ↦
              let q : j ≡ length v = ground (arith, ih, g) in
              rw (segment_end, index_byte, t, g) (ap (λ k. suc k) q)
        ]
  ]
]

module _ {M E : Type 0} (lib : Library M E) (method : Bytes) (r : Route M) where
  -- A way to the route over one of the parameters from this index on.
  abbrev pub OverParam : ℕ → Node M → Bytes → Type 0
  OverParam k n search =
      (c : Node M) × (v : Bytes) × (u : Bytes) × In c (drop_nodes k (params n))
      × (v ≢ [])
      × (index_byte v b'/' ≡ none)
      × MayCapture lib (head c).regexp v
      × Below lib method r c u
      × (search ≡ v ++ u)

  -- A way to the route over a static child.
  abbrev pub OverStatic : Node M → Bytes → Type 0
  OverStatic n search =
      (c : Node M) × (u : Bytes) × In c (statics n) × Below lib method r c u × (search ≡ key c ++ u)

  pub Below-cases :
      (n : Node M) (t : Bytes)
      → Below lib method r n t
      → ((t ≡ []) × Among r (routes n)) ⊎ (OverStatic n t ⊎ OverParam 0 n t)
  Below-cases n _ (at_leaf m) = inl (refl, m)
  Below-cases n _ (over_static {c = c} {u = u} m b) = inr (inl (c, u, m, b, refl))
  Below-cases n _ (over_param {c = c} {v = v} {u = u} m f i q b) =
      inr (inr (c, v, u, m, f, i, q, b, refl))

  -- What follows a parameter is the end or a slash.
  pub segment-ends :
      (n c : Node M) (u : Bytes)
      → IsValid n
      → IsSimple n
      → In c (params n)
      → Below lib method r c u
      → EndsSegment u
  segment-ends n c u v p m b =
      let (q, sl, pn) = params-segment n c p m in
      let vc = params-IsValid n c v m in
      elim (Below-cases c u b) [
        | inl (e, _) ↦ subst EndsSegment (sym e) tt
        | inr (inl (d, w, md, bd, e)) ↦
            let (h, vd) = statics-head c d vc md in
            subst EndsSegment (sym e) (key-ends (label d) (key d) w h (AreSlashed-In md sl))
        | inr (inr (d, w, z, md, _, _, _, _, _)) ↦ absurd (In-nil d (params c) pn md)
      ]
    where
      key-ends : (l : ℕ) (k w : Bytes) → HeadIs l k → l ≡ b'/' → EndsSegment (k ++ w)
      key-ends l [] w h e = absurd h
      key-ends l (x ∷ k) w h e = h ∙ e

  -- The parameter that is picked, or one behind it.
  abbrev pub Picks : Bool → Node M → Bytes → ℕ → Nodes M → Type 0
  Picks lazy c seg k ps =
      (j : ℕ) × (p : Node M) × (pick_param lib method lazy k ps seg ≡ some (k + j, p))
      × ((p ≡ c) ⊎ (In c (drop_nodes (suc j) ps) × (suc j < count ps)))

  Picks-first :
      (lazy : Bool) (c d : Node M) (seg : Bytes) (k : ℕ) (cs : Nodes M)
      → pick_param lib method lazy k (cons d cs) seg ≡ some (k, d)
      → (d ≡ c) ⊎ In c cs
      → Picks lazy c seg k (cons d cs)
  Picks-first lazy c d seg k cs h (inl e) = let g : k + 0 ≡ k = omega arith in (0, d, rw g h, inl e)
  Picks-first lazy c d seg k cs h (inr m) =
      let g : k + 0 ≡ k = omega arith in (0, d, rw g h, inr (m, omega (arith, count-In c cs m)))

  Picks-later :
      (lazy : Bool) (c d : Node M) (seg : Bytes) (k : ℕ) (cs : Nodes M)
      → pick_param lib method lazy k (cons d cs) seg ≡ pick_param lib method lazy (suc k) cs seg
      → Picks lazy c seg (suc k) cs
      → Picks lazy c seg k (cons d cs)
  Picks-later lazy c d seg k cs h (j, p, f, inl e) =
      let l : k + suc j ≡ suc k + j = omega arith in (suc j, p, rw l (h ∙ f), inl e)
  Picks-later lazy c d seg k cs h (j, p, f, inr (m, n)) =
      let l : k + suc j ≡ suc k + j = omega arith in
      (suc j, p, rw l (h ∙ f), inr (m, omega (arith, n)))

  pub pick_param-found :
      (lazy : Bool) (c : Node M) (seg : Bytes) (k : ℕ) (ps : Nodes M)
      → MayCapture lib (head c).regexp seg
      → In c ps
      → Picks lazy c seg k ps
  unfolding pick_param
  pick_param-found lazy c seg k _ q (first {cs = cs}) = elim (Option-cases (head c).regexp) [
    | inl e ↦ Picks-first lazy c c seg k cs (rw (pick_param, e) refl) (inl refl)
    | inr (re, e) ↦
        let t : lib.match_string re seg ≡ true = subst (λ o. MayCapture lib o seg) e q in
        Picks-first lazy c c seg k cs (rw (pick_param, e, t) refl) (inl refl)
  ]
  pick_param-found lazy c seg k _ q (later {d = d} {cs = cs} m) =
      elim (Option-cases (head d).regexp) [
        | inl e ↦ Picks-first lazy c d seg k cs (rw (pick_param, e) refl) (inr m)
        | inr (re, e) ↦ elim (Bool-cases (lib.match_string re seg)) [
          | inl t ↦ Picks-first lazy c d seg k cs (rw (pick_param, e, t) refl) (inr m)
          | inr t ↦
              Picks-later lazy c d seg k cs (rw (pick_param, e, t) refl)
                (pick_param-found lazy c seg (suc k) cs q m)
        ]
      ]
