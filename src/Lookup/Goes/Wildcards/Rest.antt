-- ===== src/Lookup/Goes/Wildcards/Rest.antt =====
-- lookupByPath: what a wildcard that has no expression captures.
use fox.Prelude.{
  ℕ, suc, ◌-◌, ◌≤◌, ◌<◌, ◌≡◌, ◌≢◌, ◌⊎◌, inl, inr, sym, subst, ap, ◌∙◌, Bool, true, false, ◌&&◌, not,
  none, some, List, [], ◌∷◌, ◌++◌, ◌==◌, arith, Bytes, take, length, get_or, Option-cases,
  Bool-cases, length-drop, beq, beq_iff, take-append-drop,
}
use fox.Node.{Node, Nodes, node, head, key, params, wildcards, count, get_static_edge}
use fox.Node.Content.{IsValid}
use fox.Lookup.{Library, LookupState}
use fox.Lookup.State.{PathWalk, Found, Goto, record_param, has_suffix}
use fox.Lookup.Step.{slash, search_of, allows_slash}
use fox.Lookup.Wildcards.{tail_child, tail_matches, tail_candidate}
use fox.Lookup.Texts.{has_suffix-last}
use fox.Lookup.Trail.{
  In, first, later, Trail, by_wildcard, by_static, to_node, slash_added, MayCapture, IsPlain,
  LackRegexps,
}
use fox.Lookup.Goes.{todo, IsReady, IsSooner, Goes, Recorded-append}
use fox.Lookup.Goes.Leaf.{IfFound, leaf_match-IfFound, IsFound}
use fox.Lookup.Goes.Statics.{get_static_edge-In}
use fox.Lookup.Goes.Params.{AreKeyed-In, AreOthers-In}

module _ {M : Type 0} where
  LackRegexps-In : {c : Node M} {cs : Nodes M} → In c cs → LackRegexps cs → (head c).regexp ≡ none
  LackRegexps-In first p = p.0
  LackRegexps-In (later m) p = LackRegexps-In m p.1

  pub wildcards-IsPlain :
      (n c : Node M)
      → IsValid n
      → IsPlain n
      → In c (wildcards n)
      → IsValid c × IsPlain c × ((head c).regexp ≡ none)
  wildcards-IsPlain (node h rs st ps ws) c v p m =
      (AreKeyed-In m v.3, (AreOthers-In m p.2).1, LackRegexps-In m p.3)

slash_of : (b : Bytes) → beq b slash ≡ true → b ≡ slash
slash_of b h = (beq_iff b slash).0 h

module _ {M E : Type 0} (s : PathWalk M E) where
  -- The walk behind the parameters.
  abbrev pub now : LookupState M E → PathWalk M E
  now memo = record s { skip_static = false; memo = memo }

module _ {M E : Type 0} (lib : Library M E) (method : Bytes) (lazy : Bool) (root : Node M)
    (path : Bytes) (before : List Bytes) (s : PathWalk M E) where
  abbrev IsAnswerNow : Found M → Type 0
  IsAnswerNow = IsFound lib method lazy root path before

  abbrev GoesOn : Goto M E → Type 0
  GoesOn = Goes lib method lazy root path before s

  abbrev Ready : Type 0
  Ready = IsReady lib method lazy root path before s × (s.chars_matched < length path)

  pub search-filled : s.chars_matched < length path → search_of path s ≢ []
  search-filled l h = absurd (omega (arith, length-drop s.chars_matched path, ap length h))

  pub captures-any :
      (w : Node M) (v : Bytes) → (head w).regexp ≡ none → MayCapture lib (head w).regexp v
  captures-any w v r = subst (λ o. MayCapture lib o v) (sym r) tt

  -- The rest of the path captured by a wildcard.
  pub rest-Trail :
      (w : Node M) (vs : List Bytes)
      → Trail lib root s.parent s.matched (take s.chars_matched path) vs
      → s.chars_matched < length path
      → In w (wildcards s.matched)
      → (head w).regexp ≡ none
      → Trail lib root (some s.matched) w path (vs ++ search_of path s ∷ [])
  rest-Trail w vs tl l m r =
      subst (λ t. Trail lib root (some s.matched) w t (vs ++ search_of path s ∷ []))
        (take-append-drop s.chars_matched path)
        (by_wildcard tl m (search-filled l) (captures-any w (search_of path s) r))

  pub IsSooner-wildcard :
      (b c : ℕ)
      → b < count (wildcards s.matched)
      → (s.child_wildcard_idx < b)
        ⊎ ((s.child_wildcard_idx ≡ b) × (s.wildcard_offset < c) × (c ≤ suc (length path)))
      → IsSooner lib method lazy root path before s (count (params s.matched)) b c
  IsSooner-wildcard b c k h =
      (((λ e. absurd (true-ne e)), (λ e. absurd (omega arith))), less s.skip_static h)
    where
      true-ne : true ≡ false → ⊥
      true-ne e = cc

      less :
          (f : Bool)
          → (s.child_wildcard_idx < b)
            ⊎ ((s.child_wildcard_idx ≡ b) × (s.wildcard_offset < c) × (c ≤ suc (length path)))
          → (todo true (count (params s.matched)) b s.matched
              < todo f s.child_param_idx s.child_wildcard_idx s.matched)
            ⊎ ((todo true (count (params s.matched)) b s.matched
                  ≤ todo f s.child_param_idx s.child_wildcard_idx s.matched)
                × (s.wildcard_offset < c)
                × (c ≤ suc (length path)))
      less true (inl l) = inl (omega arith)
      less false (inl l) = inl (omega arith)
      less true (inr (e, l, u)) = inr (omega arith, l, u)
      less false (inr (e, l, u)) = inr (omega arith, l, u)

  has_suffix-path_last :
      s.chars_matched < length path
      → get_or path (length path - 1) 0 == b'/' ≡ false
      → has_suffix path slash ≡ false
  has_suffix-path_last l h = has_suffix-last path (length path - 1) (omega arith) ∙ h

  tail_child-some :
      (w child : Node M)
      → tail_child lib method lazy path w ≡ some child
      → ((idx : ℕ) × (get_static_edge w b'/' ≡ some (idx, child))) × (key child ≡ slash)
  unfolding tail_child
  tail_child-some w child h = elim (Option-cases (get_static_edge w b'/')) [
    | inl e ↦ absurd (ground (arith, e))
    | inr ((idx, c), e) ↦
        let q : c ≡ child = ground (arith, e, h) in
        let k : beq (key c) slash ≡ true = ground (arith, e, h) in
        rw (← q) ((idx, e), slash_of (key c) k)
  ]

  pub tail_candidate-IfFound :
      (w : Node M) (end : ℕ) (m m' : LookupState M E)
      → Ready
      → In w (wildcards s.matched)
      → IfFound IsAnswerNow (tail_candidate lib method lazy path (now s m) w end m')
  unfolding tail_candidate tail_matches
  tail_candidate-IfFound w end m m' (((vs, tl, rc, k, v, p), o), l) n =
      elim (Bool-cases ((end == length path) && not (get_or path (length path - 1) 0 == b'/'))) [
        | inr e ↦ rw (tail_candidate, e) tt
        | inl e ↦ elim (Option-cases (tail_child lib method lazy path w)) [
          | inl f ↦ rw (tail_candidate, e, f) tt
          | inr (child, f) ↦
              let (vw, pw, r) = wildcards-IsPlain s.matched w v p n in
              let ((idx, g), q) = tail_child-some w child f in
              let mc = get_static_edge-In w b'/' idx child vw g in
              rw (tail_candidate, e, f, tail_matches, r)
                (leaf_match-IfFound lib method lazy IsAnswerNow allows_slash true child
                  (record_param lazy s.captured (search_of path s)) m'
                  (λ i (x, at, t, tk). (
                    x,
                    at,
                    tk,
                    slash_added (ground (arith, t)) (has_suffix-path_last l (ground (arith, e)))
                        (to_node (
                          subst (λ y. Trail lib root (some w) child y (vs ++ search_of path s ∷ []))
                            (ap (λ z. path ++ z) q) (by_static (rest-Trail w vs tl l n r) mc)))
                        (Recorded-append lazy before vs s.captured (search_of path s) rc),
                  )))
        ]
      ]
