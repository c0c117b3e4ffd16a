-- ===== src/Lookup/Goes/Wildcards.antt =====
-- lookupByPath: where the wildcards of a node lead, where none has an expression.
mod Scans
mod Rest
mod Jumps
use fox.Prelude.{
  ℕ, zero, suc, ◌+◌, ◌-◌, ◌≤◌, ◌<◌, ◌≡◌, ◌≢◌, ◌⊎◌, inl, inr, refl, sym, subst, ap, ◌∙◌, Bool, true,
  false, ◌&&◌, ◌||◌, not, Option, none, some, List, [], ◌∷◌, ◌++◌, ◌==◌, arith, Bytes, take, drop,
  length, get_or, Option-cases, Bool-cases, length-drop, length-take, min, ltb, ==_iff,
  if◌then◌else◌, append-nil, beq, beq_iff, take-append-drop,
}
use fox.Node.{
  Node, Nodes, nil, cons, node, head, key, params, statics, wildcards, count, is_leaf,
  get_static_edge,
}
use fox.Node.Content.{IsValid, AreKeyed}
use fox.Lookup.{Library, LookupState, scan_end}
use fox.Lookup.State.{
  PathWalk, Found, found, SkipNode, Goto, walk, vm, backtrack, finish, push_if, push_when,
  skip_node, step_into, drop_nodes, no_nodes, record_param, with_memo, has_suffix,
}
use fox.Lookup.Step.{slash, search_of, is_below, leaf_match, allows_slash, any_route}
use fox.Lookup.Wildcards.{
  Scan, ScanEnd, captured_to, ran_out, no_fuel, scan, Infix, jumped, tried, tail_child,
  tail_matches, tail_candidate, descend_infix, mark_scanned, after_scan, with_scan, scan_from,
  scan_vars, infix_at, infix_from, fallback, or_next, take_rest, suffix_from, after_infix,
  try_wildcards,
}
use fox.Lookup.Texts.{take_append_take, has_suffix-last}
use fox.Lookup.Trail.{
  In, first, later, Trail, by_wildcard, by_static, to_node, direct, slash_added, MayCapture,
  Recorded, IsPlain, AreOthers, LackRegexps,
}
use fox.Lookup.Goes.{
  todo, Grows, IsAt, IsReady, IsSooner, AreInOrder, IsKept, Goes, ended, backs, walks,
  Recorded-append, Grows-record,
}
use fox.Lookup.Goes.Leaf.{IfFound, leaf_match-IfFound, IsFound}
use fox.Lookup.Goes.Statics.{get_static_edge-In}
use fox.Lookup.Goes.Params.{In-drop, count-drop_nodes, count-pos, AreKeyed-In, AreOthers-In}
use fox.Lookup.Goes.Wildcards.Rest.{
  wildcards-IsPlain, now, rest-Trail, IsSooner-wildcard, captures-any, search-filled,
  tail_candidate-IfFound,
}
use fox.Lookup.Goes.Wildcards.Jumps.{IsInfix, infix_from-IsInfix}

module _ {M E : Type 0} (lib : Library M E) (method : Bytes) (lazy : Bool) (root : Node M)
    (path : Bytes) (before : List Bytes) (s : PathWalk M E) where
  abbrev IsAnswerNow : Found M → Type 0
  IsAnswerNow = IsFound lib method lazy root path before

  abbrev GoesOn : Goto M E → Type 0
  GoesOn = Goes lib method lazy root path before s

  abbrev Ready : Type 0
  Ready = IsReady lib method lazy root path before s × (s.chars_matched < length path)

  abbrev IfCandidate : Option (Found M) → Type 0
  IfCandidate none = Unit
  IfCandidate (some f) = IsAnswerNow f

  fallback-Goes :
      (c : Option (Found M)) (m : LookupState M E)
      → Ready
      → IfCandidate c
      → GoesOn (fallback c (now s m))
  fallback-Goes none m r h = backs (now s m) (inl refl) ([], sym (append-nil s.captured)) r.0.0
  fallback-Goes (some f) m r h = ended f m h

  or_next-Goes :
      (k : LookupState M E → Goto M E) (c : Option (Found M) × LookupState M E)
      → IfFound IsAnswerNow c
      → ((m : LookupState M E) → GoesOn (k m))
      → GoesOn (or_next k c)
  or_next-Goes k (some f, m) h g = ended f m h
  or_next-Goes k (none, m) h g = g m

  suffix_from-Goes :
      (c : Option (Found M)) (ws : Nodes M) (m m' : LookupState M E)
      → Ready
      → IfCandidate c
      → ((w : Node M) → In w ws → In w (wildcards s.matched))
      → GoesOn (suffix_from lib method lazy path c (now s m) ws m')
  unfolding suffix_from take_rest
  suffix_from-Goes c nil m m' r h n = fallback-Goes c m' r h
  suffix_from-Goes c (cons w ws) m m' r h n =
      let ih = λ (m'' : LookupState M E). suffix_from-Goes c ws m m'' r h (λ x u. n x (later u)) in
      elim (Bool-cases (is_leaf w)) [
        | inr e ↦ rw (suffix_from, e) (ih m')
        | inl e ↦
            let (((vs, tl, rc, k, v, p), o), l) = r in
            let q = (wildcards-IsPlain s.matched w v p (n w first)).2 in
            rw (suffix_from, e, q, take_rest)
              (or_next-Goes (λ m''. suffix_from lib method lazy path c (now s m) ws m'')
                (leaf_match lib method lazy any_route false w
                  (record_param lazy s.captured (search_of path s)) m')
                (leaf_match-IfFound lib method lazy IsAnswerNow any_route false w
                  (record_param lazy s.captured (search_of path s)) m'
                  (λ i (x, at, t, tk). (
                    x,
                    at,
                    tk,
                    direct
                        (to_node
                          (rest-Trail lib method lazy root path before s w vs tl l (n w first) q))
                        (Recorded-append lazy before vs s.captured (search_of path s) rc),
                  )))
                ih)
      ]

  after_infix-Goes :
      (x : Infix M E)
      → Ready
      → IsInfix lib method lazy root path before s x
      → GoesOn (after_infix lib method lazy path x)
  unfolding after_infix
  after_infix-Goes (jumped g) r h = h
  after_infix-Goes (tried none s') r (m, e) =
      subst (λ y. GoesOn (after_infix lib method lazy path (tried none y))) (sym e)
        (suffix_from-Goes none (wildcards s.matched) m m r tt (λ w n. n))
  after_infix-Goes (tried (some f) s') r ((m, e), h) =
      subst (λ y. GoesOn (after_infix lib method lazy path (tried (some f) y))) (sym e)
        (suffix_from-Goes (some f) (wildcards s.matched) m m r h (λ w n. n))

  pub try_wildcards-Goes :
      IsReady lib method lazy root path before s
      → s.chars_matched < length path
      → (memo : LookupState M E) → GoesOn (try_wildcards lib method lazy path root (now s memo))
  unfolding try_wildcards
  try_wildcards-Goes r l m =
      elim (Bool-cases (
        not (no_nodes (drop_nodes s.child_wildcard_idx (wildcards s.matched)))
        && is_below lib root (now s m))) [
          | inr e ↦
              rw (try_wildcards, e)
                (backs (now s m) (inl refl) ([], sym (append-nil s.captured)) r.0)
          | inl e ↦
              let t =
                count-pos (drop_nodes s.child_wildcard_idx (wildcards s.matched))
                  (ground (arith, e)) in
              rw (try_wildcards, e)
                (after_infix-Goes
                  (infix_from lib method lazy path (now s m) 0
                    (drop_nodes s.child_wildcard_idx (wildcards s.matched)))
                  (r, l)
                  (infix_from-IsInfix lib method lazy root path before s 0
                    (drop_nodes s.child_wildcard_idx (wildcards s.matched)) m (r, l)
                    (omega (arith, t, count-drop_nodes s.child_wildcard_idx (wildcards s.matched)))
                    (λ w u. In-drop s.child_wildcard_idx (wildcards s.matched) w u)))
        ]
