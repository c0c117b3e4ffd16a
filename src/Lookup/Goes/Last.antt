-- ===== src/Lookup/Goes/Last.antt =====
-- lookupByPath: the end of the path, and the candidate at a backtrack.
use fox.Prelude.{
  ℕ, ◌≡◌, ◌≢◌, inl, inr, refl, sym, subst, ap, ◌∙◌, Bool, true, false, ◌&&◌, not, Option, none,
  some, List, [], ◌∷◌, ◌++◌, arith, Bytes, take, Option-cases, Bool-cases, append-nil, beq, beq_iff,
  take-append-drop,
}
use fox.Route.{Route}
use fox.Node.{Node, node, key, params, wildcards, get_static_edge}
use fox.Lookup.{Library, LookupState}
use fox.Lookup.Accept.{is_exact_slash}
use fox.Lookup.State.{PathWalk, Found, Goto, backtrack, has_suffix, with_memo}
use fox.Lookup.Step.{
  slash, search_of, leaf_match, empty_match, any_route, is_optional, parent_allows, slash_child,
  end_slash, or_else, end_of_path,
}
use fox.Lookup.Trail.{
  In, Trail, here, by_static, by_param, by_wildcard, to_node, to_empty, direct, slash_removed,
  Recorded, IsPlain,
}
use fox.Lookup.Goes.{IsAt, IsReady, Goes, ended, backs, Recorded-append}
use fox.Lookup.Goes.Leaf.{
  IfFound, IsFound, leaf_match-IfFound, empty_match-IfFound, match_trailing_slash-IfFound,
}
use fox.Lookup.Goes.Statics.{get_static_edge-In, statics-IsPlain}
use fox.Lookup.Goes.Params.{AreOthers-In}

module _ {M : Type 0} where
  params-IsPlain : (n c : Node M) → IsPlain n → In c (params n) → (key c ≢ slash) × IsPlain c
  params-IsPlain (node h rs st ps ws) c p m = AreOthers-In m p.1

  wildcards-IsPlain : (n c : Node M) → IsPlain n → In c (wildcards n) → (key c ≢ slash) × IsPlain c
  wildcards-IsPlain (node h rs st ps ws) c p m = AreOthers-In m p.2

module _ {M E : Type 0} (lib : Library M E) (root : Node M) where
  Trail-IsPlain :
      {up : Option (Node M)} {n : Node M} {t : Bytes} {vs : List Bytes}
      → IsPlain root
      → Trail lib root up n t vs
      → IsPlain n
  Trail-IsPlain p here = p
  Trail-IsPlain {n} p (by_static {n = k} tl m) = statics-IsPlain k n (Trail-IsPlain p tl) m
  Trail-IsPlain {n} p (by_param {n = k} tl m f i c) = (params-IsPlain k n (Trail-IsPlain p tl) m).1
  Trail-IsPlain {n} p (by_wildcard {n = k} tl m f c) =
      (wildcards-IsPlain k n (Trail-IsPlain p tl) m).1

  -- A node with the key "/" is a static child: its parent lies one slash before it.
  Trail-slash :
      {up : Option (Node M)} {n : Node M} {t : Bytes} {vs : List Bytes}
      → IsPlain root
      → Trail lib root up n t vs
      → key n ≡ slash
      → (p : Node M) → up ≡ some p
      → (up' : Option (Node M)) × (t' : Bytes) × Trail lib root up' p t' vs × (t ≡ t' ++ slash)
  Trail-slash pl here k p e = absurd (ground (arith, e))
  Trail-slash {vs} pl (by_static {up = u} {n = n} {t = t} tl m) k p e =
      let q : n ≡ p = ground (arith, e) in
      (u, t, subst (λ x. Trail lib root u x t vs) q tl, ap (λ y. t ++ y) k)
  Trail-slash {n = c} pl (by_param {n = n} tl m f i cp) k p e =
      absurd ((params-IsPlain n c (Trail-IsPlain pl tl) m).0 k)
  Trail-slash {n = c} pl (by_wildcard {n = n} tl m f cp) k p e =
      absurd ((wildcards-IsPlain n c (Trail-IsPlain pl tl) m).0 k)

allows-parent :
    {M : Type 0} (r : Route M)
    → parent_allows r ≡ true
    → (is_exact_slash r.handle_slash ≡ false) × (r.pattern.catch_all ≡ false)
allows-parent r h = ground arith

module _ {M E : Type 0} (lib : Library M E) (method : Bytes) (lazy : Bool) (root : Node M)
    (path : Bytes) (before : List Bytes) where
  abbrev IsAnswerHere : Found M → Type 0
  IsAnswerHere = IsFound lib method lazy root path before

  -- A leaf that lies one slash before the end of the path.
  parent-IfFound :
      (up : Option (Node M)) (p : Node M) (t : Bytes) (vs captured : List Bytes)
      (memo : LookupState M E)
      → Trail lib root up p t vs
      → path ≡ t ++ slash
      → has_suffix path (b'/' ∷ b'/' ∷ []) ≡ false
      → Recorded lazy before vs captured
      → IfFound IsAnswerHere (leaf_match lib method lazy parent_allows true p captured memo)
  parent-IfFound up p t vs captured memo tl e n c =
      leaf_match-IfFound lib method lazy IsAnswerHere parent_allows true p captured memo
        (λ i (r, at, a, tk).
          let (x, y) = allows-parent r a in (r, at, tk, slash_removed x y n e tl c))

  slash_child-some :
      (n child : Node M)
      → slash_child path n ≡ some child
      → ((idx : ℕ) × (get_static_edge n b'/' ≡ some (idx, child)))
        × (key child ≡ slash)
        × (has_suffix path slash ≡ false)
  unfolding slash_child
  slash_child-some n child h = elim (Option-cases (get_static_edge n b'/')) [
    | inl e ↦ absurd (ground (arith, e))
    | inr ((idx, c), e) ↦
        let q : c ≡ child = ground (arith, e, h) in
        let k : beq (key c) slash ≡ true = ground (arith, e, h) in
        let s : has_suffix path slash ≡ false = ground (arith, e, h) in
        rw (← q) ((idx, e), (beq_iff (key c) slash).0 k, s)
  ]

  end_slash-IfFound :
      (s : PathWalk M E) (vs : List Bytes)
      → IsPlain root
      → IsReady lib method lazy root path before s
      → Trail lib root s.parent s.matched path vs
      → Recorded lazy before vs s.captured
      → IfFound IsAnswerHere (end_slash lib method lazy path s)
  unfolding end_slash
  end_slash-IfFound s vs pl (((_, _, _, k, v, p), o)) tl rc =
      elim (Option-cases (slash_child path s.matched)) [
        | inr (child, e) ↦
            let ((idx, g), q, n) = slash_child-some s.matched child e in
            let m = get_static_edge-In s.matched b'/' idx child v g in
            rw (end_slash, e)
              (match_trailing_slash-IfFound lib method lazy root path before (some s.matched) child
                s.captured vs s.memo
                (subst (λ y. Trail lib root (some s.matched) child y vs) (ap (λ z. path ++ z) q)
                  (by_static tl m))
                n rc)
        | inl e ↦
            elim (Bool-cases
              (beq (key s.matched) slash && not (has_suffix path (b'/' ∷ b'/' ∷ [])))) [
                | inr f ↦ rw (end_slash, e, f) tt
                | inl f ↦
                    rw (end_slash, e, f)
                      (by_parent s.parent tl (ground (arith, f)) (ground (arith, f)))
              ]
      ]
    where
      by_parent :
          (up : Option (Node M))
          → Trail lib root up s.matched path vs
          → beq (key s.matched) slash ≡ true
          → has_suffix path (b'/' ∷ b'/' ∷ []) ≡ false
          → IfFound IsAnswerHere (elim up as (λ _. Option (Found M) × LookupState M E) [
            | none ↦ (none, s.memo)
            | some p ↦ leaf_match lib method lazy parent_allows true p s.captured s.memo
          ])
      by_parent none tl' q n = tt
      by_parent (some p) tl' q n =
          let (up', t', tp, e) =
            Trail-slash lib root pl tl' ((beq_iff (key s.matched) slash).0 q) p refl in
          parent-IfFound up' p t' vs s.captured s.memo tp e n rc

  or_else-Goes :
      (s : PathWalk M E) (m : LookupState M E) (k : PathWalk M E → Goto M E)
      (c : Option (Found M) × LookupState M E)
      → IfFound IsAnswerHere c
      → ((m' : LookupState M E) → Goes lib method lazy root path before s (k (with_memo s m')))
      → Goes lib method lazy root path before s (or_else (with_memo s m) k c)
  or_else-Goes s m k (some f, m') h g = ended f m' h
  or_else-Goes s m k (none, m') h g = g m'

  pub end_of_path-Goes :
      (s : PathWalk M E)
      → IsPlain root
      → IsReady lib method lazy root path before s
      → search_of path s ≡ []
      → Goes lib method lazy root path before s (end_of_path lib method lazy path s)
  unfolding end_of_path
  end_of_path-Goes s pl ((vs, tl, rc, k, v, p), o) d =
      let e : take s.chars_matched path ≡ path =
        sym (append-nil (take s.chars_matched path))
        ∙ ap (λ x. take s.chars_matched path ++ x) (sym d)
        ∙ take-append-drop s.chars_matched path in
      let tl' : Trail lib root s.parent s.matched path vs =
        subst (λ t. Trail lib root s.parent s.matched t vs) e tl in
      or_else-Goes s s.memo
        (λ s'.
          or_else s' (λ s''. or_else s'' backtrack (end_slash lib method lazy path s''))
            (empty_match lib method lazy is_optional false s'.matched s'.captured s'.memo))
        (leaf_match lib method lazy any_route false s.matched s.captured s.memo)
        (leaf_match-IfFound lib method lazy IsAnswerHere any_route false s.matched s.captured s.memo
          (λ i (r, at, a, tk). (r, at, tk, direct (to_node tl') rc)))
        (λ m.
          or_else-Goes s m (λ s''. or_else s'' backtrack (end_slash lib method lazy path s''))
            (empty_match lib method lazy is_optional false s.matched s.captured m)
            (empty_match-IfFound lib method lazy IsAnswerHere is_optional false s.matched s.captured
              m
              (λ i w n (r, at, a, tk). (
                r,
                at,
                tk,
                direct (to_empty tl' n a) (Recorded-append lazy before vs s.captured [] rc),
              )))
            (λ m'.
              or_else-Goes s m' backtrack (end_slash lib method lazy path (with_memo s m'))
                (end_slash-IfFound (with_memo s m') vs pl ((vs, tl, rc, k, v, p), o) tl' rc)
                (λ m''.
                  backs (with_memo s m'') (inl refl) ([], sym (append-nil s.captured))
                    (vs, tl, rc, k, v, p))))

  -- A backtrack finds the leaf that it leaves, or pops the stack.
  pub back-IfFound :
      (s : PathWalk M E)
      → IsAt lib method lazy root path before s
      → beq (search_of path s) slash ≡ true
      → has_suffix path (b'/' ∷ b'/' ∷ []) ≡ false
      → IfFound IsAnswerHere
          (leaf_match lib method lazy parent_allows true s.matched s.captured s.memo)
  back-IfFound s (vs, tl, rc, k, v, p) q n =
      let d : search_of path s ≡ slash = (beq_iff (search_of path s) slash).0 q in
      parent-IfFound s.parent s.matched (take s.chars_matched path) vs s.captured s.memo tl
        (sym (take-append-drop s.chars_matched path) ∙ ap (λ x. take s.chars_matched path ++ x) d) n
        rc
