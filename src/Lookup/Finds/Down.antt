-- ===== src/Lookup/Finds/Down.antt =====
-- What lies below a node: the ways from it to the route, over what is left of the path. The trees
-- are those without wildcards, where a slash or the end of the path follows a parameter.
use fox.Prelude.{
  ℕ, zero, suc, ◌<◌, ◌≡◌, ◌≢◌, inl, inr, sym, subst, Bool, true, false, Option, none, some, List,
  [], ◌∷◌, ◌++◌, arith, Bytes, beq, beq_iff, Bool-cases, index_byte, append_assoc, get_elem?,
}
use fox.Route.{Route}
use fox.Node.{
  Node, Nodes, nil, cons, node, nth, label, head, key, routes, params, statics, wildcards,
  get_static_edge,
}
use fox.Node.Search.{lower, Above, SortedLabels, label_index-lower}
use fox.Node.Content.{IsValid}
use fox.Lookup.{Library, LookupState}
use fox.Lookup.Accept.{match, match_slow, after_matchers, first_from, first_match}
use fox.Lookup.Trail.{
  In, first, later, Trail, here, by_static, by_param, by_wildcard, MayCapture, Takes,
}

abbrev pub AreSlashed : {M : Type 0} → Nodes M → Type 0
AreSlashed nil = Unit
AreSlashed (cons c cs) = (label c ≡ b'/') × AreSlashed cs

abbrev mutual
  -- No wildcards, and behind a parameter a slash or nothing.
  pub IsSimple : {M : Type 0} → Node M → Type 0
  IsSimple (node h rs st ps ws) = AreSimple st × AreSegments ps × (ws ≡ nil)

  pub AreSimple : {M : Type 0} → Nodes M → Type 0
  AreSimple nil = Unit
  AreSimple (cons c cs) = IsSimple c × AreSimple cs

  pub AreSegments : {M : Type 0} → Nodes M → Type 0
  AreSegments nil = Unit
  AreSegments (cons c cs) = IsSimple c × AreSlashed (statics c) × (params c ≡ nil) × AreSegments cs

module _ {M : Type 0} where
  AreSimple-In : {c : Node M} {cs : Nodes M} → In c cs → AreSimple cs → IsSimple c
  AreSimple-In first p = p.0
  AreSimple-In (later m) p = AreSimple-In m p.1

  AreSegments-In :
      {c : Node M} {cs : Nodes M}
      → In c cs
      → AreSegments cs
      → IsSimple c × AreSlashed (statics c) × (params c ≡ nil)
  AreSegments-In first p = (p.0, p.1, p.2)
  AreSegments-In (later m) p = AreSegments-In m p.3

  pub statics-IsSimple : (n c : Node M) → IsSimple n → In c (statics n) → IsSimple c
  statics-IsSimple (node h rs st ps ws) c p m = AreSimple-In m p.0

  pub params-segment :
      (n c : Node M)
      → IsSimple n
      → In c (params n)
      → IsSimple c × AreSlashed (statics c) × (params c ≡ nil)
  params-segment (node h rs st ps ws) c p m = AreSegments-In m p.1

  pub wildcards-nil : (n : Node M) → IsSimple n → wildcards n ≡ nil
  wildcards-nil (node h rs st ps ws) p = p.2

  pub In-nil : (c : Node M) (cs : Nodes M) → cs ≡ nil → In c cs → ⊥
  In-nil c nil e m = elim m [ ]
  In-nil c (cons d cs) e m = absurd (ground (arith, e))

  pub AreSlashed-In : {c : Node M} {cs : Nodes M} → In c cs → AreSlashed cs → label c ≡ b'/'
  AreSlashed-In first p = p.0
  AreSlashed-In (later m) p = AreSlashed-In m p.1

  Above-In : (l : ℕ) {c : Node M} {cs : Nodes M} → In c cs → Above l cs → l < label c
  Above-In l first a = a.0
  Above-In l (later m) a = Above-In l m a.1

  nth-lower :
      {c : Node M} {cs : Nodes M} → In c cs → SortedLabels cs → nth cs (lower cs (label c)) ≡ some c
  unfolding lower
  nth-lower {c} (first {cs = cs}) s = ground arith
  nth-lower {c} (later {d = d} {cs = cs} m) s =
      ground (arith, Above-In (label d) m s.0, nth-lower m s.1)

  -- The child of a label is found.
  pub get_static_edge-found :
      (n c : Node M)
      → IsValid n
      → In c (statics n)
      → (i : ℕ) × (get_static_edge n (label c) ≡ some (i, c))
  unfolding get_static_edge
  get_static_edge-found (node h rs st ps ws) c v m =
      (lower st (label c), ground (arith, label_index-lower st (label c) v.0, nth-lower m v.0))

  -- `route` is one of these.
  pub data Among (r : Route M) : List (Route M) → Type 0 where
    among_first : {rs : List (Route M)} → Among r (r ∷ rs)
    among_later : {x : Route M} {rs : List (Route M)} → Among r rs → Among r (x ∷ rs)

  pub Among-get_elem? :
      (rs : List (Route M)) (i : ℕ) (r : Route M) → get_elem? rs i ≡ some r → Among r rs
  Among-get_elem? [] i r h = absurd (ground (arith, h))
  Among-get_elem? (x ∷ rs) zero r h =
      let q : x ≡ r = ground (arith, h) in subst (λ y. Among r (y ∷ rs)) (sym q) among_first
  Among-get_elem? (x ∷ rs) (suc i) r h = among_later (Among-get_elem? rs i r h)

module _ {M E : Type 0} (lib : Library M E) (method : Bytes) (r : Route M) where
  match-true :
      r.nested ≡ false
      → Takes lib method r
      → (s : LookupState M E) → (match lib method r s).0 ≡ true
  unfolding match match_slow after_matchers
  match-true n (inl e) s =
      let q : beq r.method_fast method ≡ true = (beq_iff r.method_fast method).1 e in
      ground (arith, q)
  match-true n (inr (a, b)) s = ground (arith, n, a, b)

  first_from-found :
      (test : Route M → Bool) (k : ℕ) (rs : List (Route M)) (s : LookupState M E)
      → r.nested ≡ false
      → Takes lib method r
      → test r ≡ true
      → Among r rs
      → (first_from lib method test k rs s).0 ≢ none
  unfolding first_from
  first_from-found test k _ s n t e (among_first {rs = rs}) h =
      let q = match-true n t s in absurd (ground (arith, h, e, q))
  first_from-found test k _ s n t e (among_later {x = x} {rs = rs} m) h =
      elim (Bool-cases (test x)) [
        | inr f ↦ first_from-found test (suc k) rs s n t e m (rw (first_from, f) at h)
        | inl f ↦ elim (Bool-cases (match lib method x s).0) [
          | inl g ↦ absurd (ground (arith, h, f, g))
          | inr g ↦
              first_from-found test (suc k) rs (match lib method x s).1 n t e m
                (rw (first_from, f, g) at h)
        ]
      ]

  pub first_match-found :
      (test : Route M → Bool) (rs : List (Route M)) (s : LookupState M E)
      → r.nested ≡ false
      → Takes lib method r
      → test r ≡ true
      → Among r rs
      → (first_match lib method test rs s).0 ≢ none
  unfolding first_match
  first_match-found test rs s n t e m = first_from-found test 0 rs s n t e m

  pub data Below : Node M → Bytes → Type 0 where
    at_leaf : {n : Node M} → Among r (routes n) → Below n []
    over_static : {n c : Node M} {u : Bytes} → In c (statics n) → Below c u → Below n (key c ++ u)
    over_param :
        {n c : Node M} {v u : Bytes}
        → In c (params n)
        → v ≢ []
        → index_byte v b'/' ≡ none
        → MayCapture lib (head c).regexp v
        → Below c u
        → Below n (v ++ u)

  Trail-IsSimple :
      (root : Node M) {up : Option (Node M)} {n : Node M} {t : Bytes} {vs : List Bytes}
      → IsSimple root
      → Trail lib root up n t vs
      → IsSimple n
  Trail-IsSimple root p here = p
  Trail-IsSimple root {n = c} p (by_static {n = n} tl m) =
      statics-IsSimple n c (Trail-IsSimple root p tl) m
  Trail-IsSimple root {n = c} p (by_param {n = n} tl m f i cp) =
      (params-segment n c (Trail-IsSimple root p tl) m).0
  Trail-IsSimple root {n = c} p (by_wildcard {n = n} tl m f cp) =
      absurd (In-nil c (wildcards n) (wildcards-nil n (Trail-IsSimple root p tl)) m)

  pub Trail-Below :
      (root : Node M) {up : Option (Node M)} {n : Node M} {t : Bytes} {vs : List Bytes} (u : Bytes)
      → IsSimple root
      → Trail lib root up n t vs
      → Below n u
      → Below root (t ++ u)
  Trail-Below root u p here b = b
  Trail-Below root {n = c} u p (by_static {n = n} {t = t} tl m) b =
      subst (λ x. Below root x) (sym (append_assoc t (key c) u))
        (Trail-Below root (key c ++ u) p tl (over_static m b))
  Trail-Below root {n = c} u p (by_param {n = n} {t = t} {v = v} tl m f i cp) b =
      subst (λ x. Below root x) (sym (append_assoc t v u))
        (Trail-Below root (v ++ u) p tl (over_param m f i cp b))
  Trail-Below root {n = c} u p (by_wildcard {n = n} tl m f cp) b =
      absurd (In-nil c (wildcards n) (wildcards-nil n (Trail-IsSimple root p tl)) m)
