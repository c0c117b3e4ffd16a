-- ===== src/Lookup/Goes/Wildcards/Jumps.antt =====
-- lookupByPath: where the infix wildcards of a node lead.
use fox.Prelude.{
  ℕ, zero, suc, ◌+◌, ◌-◌, ◌≤◌, ◌<◌, ◌≡◌, ◌≢◌, ◌⊎◌, inl, inr, refl, sym, ap, Bool, true, false, not,
  Option, none, some, List, [], ◌∷◌, ◌++◌, arith, Bytes, take, length, length-drop, length-take,
  ltb, append-nil,
}
use fox.Node.{Node, Nodes, nil, cons, key, params, statics, wildcards, count}
use fox.Lookup.{Library, LookupState, scan_end}
use fox.Lookup.State.{PathWalk, Found, Goto, walk, push_if, skip_node, no_nodes}
use fox.Lookup.Step.{search_of}
use fox.Lookup.Wildcards.{
  ScanEnd, captured_to, ran_out, no_fuel, Infix, jumped, tried, tail_candidate, descend_infix,
  mark_scanned, after_scan, with_scan, scan_from, scan_vars, infix_at, infix_from,
}
use fox.Lookup.Texts.{take_append_take}
use fox.Lookup.Trail.{In, first, later, by_wildcard}
use fox.Lookup.Goes.{IsReady, Goes, backs, walks, Recorded-append, Grows-record}
use fox.Lookup.Goes.Leaf.{IfFound, IsFound}
use fox.Lookup.Goes.Wildcards.Rest.{
  wildcards-IsPlain, now, IsSooner-wildcard, captures-any, tail_candidate-IfFound,
}
use fox.Lookup.Goes.Wildcards.Scans.{IsScanned, scan-IsScanned}

module _ {M E : Type 0} (lib : Library M E) (method : Bytes) (lazy : Bool) (root : Node M)
    (path : Bytes) (before : List Bytes) (s : PathWalk M E) where
  abbrev IsAnswerNow : Found M → Type 0
  IsAnswerNow = IsFound lib method lazy root path before

  abbrev GoesOn : Goto M E → Type 0
  GoesOn = Goes lib method lazy root path before s

  abbrev Ready : Type 0
  Ready = IsReady lib method lazy root path before s × (s.chars_matched < length path)

  descend_infix-Goes :
      (i : ℕ) (w : Node M) (at : ℕ) (m m' : LookupState M E)
      → Ready
      → i + s.child_wildcard_idx < count (wildcards s.matched)
      → In w (wildcards s.matched)
      → (s.chars_matched + s.wildcard_offset ≤ at) × (at < length path) × (at ≢ s.chars_matched)
      → GoesOn (walk (descend_infix lib method lazy path (now s m) i w at m'))
  descend_infix-Goes i w at m m' (((vs, tl, rc, k, v, p), o), l) j n (a, b, c) =
      let (vw, pw, r) = wildcards-IsPlain s.matched w v p n in
      let cap : Bytes = take (at - s.chars_matched) (search_of path s) in
      walks (descend_infix lib method lazy path (now s m) i w at m')
        (inr (
          count (params s.matched),
          i + s.child_wildcard_idx,
          at - s.chars_matched + 1,
          refl,
          IsSooner-wildcard lib method lazy root path before s (i + s.child_wildcard_idx)
              (at - s.chars_matched + 1) j (which i),
        ))
        (Grows-record lazy s.captured cap)
        (
          (
            vs ++ cap ∷ [],
            rw (← take_append_take s.chars_matched (at - s.chars_matched) path)
                (by_wildcard tl n filled (captures-any lib method lazy root path before s w cap r)),
            Recorded-append lazy before vs s.captured cap rc,
            omega arith,
            vw,
            pw,
          ),
          ((λ h. (refl, refl, refl)), (λ h. (refl, refl))),
        )
        (omega arith)
    where
      filled : take (at - s.chars_matched) (search_of path s) ≢ []
      filled h = absurd (
          omega (
            arith,
            length-take (at - s.chars_matched) (search_of path s),
            ap length h,
            length-drop s.chars_matched path,
          ))

      which :
          (i : ℕ)
          → (s.child_wildcard_idx < i + s.child_wildcard_idx)
            ⊎ ((s.child_wildcard_idx ≡ i + s.child_wildcard_idx)
                × (s.wildcard_offset < at - s.chars_matched + 1)
                × (at - s.chars_matched + 1 ≤ suc (length path)))
      which zero = inr (omega arith, omega arith, omega arith)
      which (suc i) = inl (omega arith)

  -- The loop over the infix wildcards goes right, or ends with a right candidate or none.
  abbrev pub IsInfix : Infix M E → Type 0
  IsInfix (jumped g) = GoesOn g
  IsInfix (tried none s') = (m : LookupState M E) × (s' ≡ now s m)
  IsInfix (tried (some f) s') = ((m : LookupState M E) × (s' ≡ now s m)) × IsAnswerNow f

  after_scan-IsInfix :
      (i : ℕ) (w : Node M) (more : Bool) (m : LookupState M E)
      (c : Option (Found M) × LookupState M E)
      → Ready
      → ((more ≡ true) → i + 1 + s.child_wildcard_idx < count (wildcards s.matched))
      → IfFound IsAnswerNow c
      → IsInfix (after_scan lib method lazy path (now s m) i w more c)
  unfolding after_scan
  after_scan-IsInfix i w true m (some f, m') r j h = ((m', refl), h)
  after_scan-IsInfix i w false m (some f, m') r j h = ((m', refl), h)
  after_scan-IsInfix i w false m (none, m') r j h = (_, refl)
  after_scan-IsInfix i w true m (none, m') r j h =
      backs
        (push_if true (now s (mark_scanned lib method lazy path (now s m) w m'))
          (skip_node s (count (params s.matched)) (i + 1 + s.child_wildcard_idx) 0))
        (inr (
          count (params s.matched),
          i + 1 + s.child_wildcard_idx,
          0,
          refl,
          IsSooner-wildcard lib method lazy root path before s (i + 1 + s.child_wildcard_idx) 0
              (j refl) (inl (omega arith)),
        ))
        ([], sym (append-nil s.captured)) r.0.0

  with_scan-IsInfix :
      (i : ℕ) (w : Node M) (more : Bool) (m : LookupState M E) (e : ScanEnd M E)
      → Ready
      → i + s.child_wildcard_idx < count (wildcards s.matched)
      → ((more ≡ true) → i + 1 + s.child_wildcard_idx < count (wildcards s.matched))
      → In w (wildcards s.matched)
      → IsScanned lib path w s.chars_matched (s.chars_matched + s.wildcard_offset) e
      → IsInfix (with_scan lib method lazy path (now s m) i w more e)
  unfolding with_scan
  with_scan-IsInfix i w more m (captured_to at m') r k j n h =
      descend_infix-Goes i w at m m' r k n h
  with_scan-IsInfix i w more m (ran_out end m') r k j n h =
      after_scan-IsInfix i w more m (tail_candidate lib method lazy path (now s m) w end m') r j
        (tail_candidate-IfFound lib method lazy root path before s w end m m' r n)
  with_scan-IsInfix i w more m (no_fuel m') r k j n h = absurd h

  infix_at-IsInfix :
      (i : ℕ) (w child : Node M) (more : Bool) (m : LookupState M E)
      → Ready
      → i + s.child_wildcard_idx < count (wildcards s.matched)
      → ((more ≡ true) → i + 1 + s.child_wildcard_idx < count (wildcards s.matched))
      → In w (wildcards s.matched)
      → IsInfix (infix_at lib method lazy path (now s m) i w child more)
  unfolding infix_at scan_from
  infix_at-IsInfix i w child more m r k j n =
      let (((vs, tl, rc, c, v, p), o), l) = r in
      let q = (wildcards-IsPlain s.matched w v p n).2 in
      rw (infix_at, q)
        (with_scan-IsInfix i w more m
          (scan_from lib method lazy path (now s m) w child (
            scan_vars lib method lazy path (now s m)
              (scan_end lib m w (s.chars_matched + s.wildcard_offset) (length path))
              (ltb 0 s.wildcard_offset) none m))
          r k j n
          (rw (scan_from, q)
            (scan-IsScanned lib path w s.chars_matched (suc (length path + (length path + 2)))
              (key child) (s.chars_matched + s.wildcard_offset)
              (scan_end lib m w (s.chars_matched + s.wildcard_offset) (length path))
              (ltb 0 s.wildcard_offset) m q (omega arith) (omega arith))))

  more-lt : (ws : Nodes M) (k n : ℕ) → k + suc (count ws) ≤ n → not (no_nodes ws) ≡ true → k + 1 < n
  more-lt nil k n h e = absurd (ground (arith, e))
  more-lt (cons w ws) k n h e = omega arith

  pub infix_from-IsInfix :
      (i : ℕ) (ws : Nodes M) (m : LookupState M E)
      → Ready
      → i + s.child_wildcard_idx + count ws ≤ count (wildcards s.matched)
      → ((w : Node M) → In w ws → In w (wildcards s.matched))
      → IsInfix (infix_from lib method lazy path (now s m) i ws)
  unfolding infix_from
  infix_from-IsInfix i nil m r k n = (m, refl)
  infix_from-IsInfix i (cons w ws) m r k n =
      by_statics (statics w)
        (infix_from-IsInfix (suc i) ws m r (omega arith) (λ x u. n x (later u)))
        (λ child.
          infix_at-IsInfix i w child (not (no_nodes ws)) m r (omega arith)
            (λ e.
              omega
                (arith, more-lt ws (i + s.child_wildcard_idx) (count (wildcards s.matched)) k e))
            (n w first))
    where
      by_statics :
          (st : Nodes M)
          → IsInfix (infix_from lib method lazy path (now s m) (suc i) ws)
          → ((child : Node M)
              → IsInfix (infix_at lib method lazy path (now s m) i w child (not (no_nodes ws))))
          → IsInfix (elim st as (λ _. Infix M E) [
            | nil ↦ infix_from lib method lazy path (now s m) (suc i) ws
            | cons child cs ↦ infix_at lib method lazy path (now s m) i w child (not (no_nodes ws))
          ])
      by_statics nil a b = a
      by_statics (cons child cs) a b = b child
