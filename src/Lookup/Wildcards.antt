-- ===== src/Lookup/Wildcards.antt =====
-- node.go: lookupByPath, the wildcards of a node: first those inside a pattern, then those at its end.
use fox.Prelude.{
  ℕ, zero, suc, ◌+◌, ◌-◌, Bool, true, false, ◌&&◌, ◌||◌, not, Option, none, some, ◌==◌,
  if◌then◌else◌, length, take, drop, get_or, ltb, Bytes, beq, has_prefix, index_byte,
}
use fox.Prelude.{◌⊎◌, inl, inr}
use fox.Node.{
  Node, Nodes, nil, cons, head, key, statics, params, wildcards, count, is_leaf, get_static_edge,
}
use fox.Lookup.{
  Library, LookupState, scan_end, mark_exhausted, retry_scan, retry_suffix, ends_of, put_ends,
  match_tail,
}
use fox.Lookup.State.{
  PathWalk, Found, found, Goto, walk, vm, backtrack, finish, scan_out_of_fuel, drop_nodes, no_nodes,
  record_param, skip_node, push_if, with_memo, step_into,
}
use fox.Lookup.Step.{slash, allows_slash, any_route, search_of, is_below, leaf_match}

-- The variables of the loop over the ends of a capture, and its ways out.
pub record Scan (M E : Type 0) : Type 0 where
  pub search_start : ℕ
  pub end : ℕ
  pub evaluated : Bool
  pub ends : Option E
  pub memo : LookupState M E

pub data ScanEnd (M E : Type 0) : Type 0 where
  captured_to : ℕ → LookupState M E → ScanEnd M E
  ran_out : ℕ → LookupState M E → ScanEnd M E
  no_fuel : LookupState M E → ScanEnd M E

-- strings.IndexByte(path[from:to], c), as a position of the path.
unfoldable pub index_between : Bytes → ℕ → ℕ → ℕ → Option ℕ
index_between path from to c = elim (index_byte (take (to - from) (drop from path)) c) [
  | none ↦ none
  | some i ↦ some (from + i)
]

module _ {M E : Type 0} (lib : Library M E) (path : Bytes) (w : Node M) (chars : ℕ) where
  -- The next end of a capture, with `end` for an expression that matches up to the first slash only.
  unfoldable pub capture_end : Bool → Scan M E → Option ℕ × Scan M E
  unfolding put_ends index_between
  capture_end single s = elim s.ends [
    | some e ↦
        let (at, e') = lib.next e s.search_start in
        (at, record s { ends = some e'; memo = put_ends lib s.memo w e' })
    | none ↦ elim (index_between path s.search_start s.end b'/') [
      | none ↦ (none, s)
      | some at ↦ (some at, if single then record s { end = at + 1 } else s)
    ]
  ]

  -- The rest of the path begins with the key of the static child, or that with the rest.
  abbrev pub fits_key : Bytes → ℕ → Bool
  fits_key k at = has_prefix (drop at path) k || has_prefix k (drop at path)

  -- What becomes of a capture that is not empty and fits_key.
  unfoldable pub evaluate : Scan M E → ℕ → ScanEnd M E ⊎ Scan M E
  unfolding ends_of
  evaluate s at = elim (head w).regexp [
    | none ↦ inl (captured_to at s.memo)
    | some re ↦ elim s.ends [
      | some e ↦ inl (captured_to at s.memo)
      | none ↦ elim s.evaluated [
        | true ↦
            let (e, memo) = ends_of lib s.memo w re path chars b'/' in
            inr (record s { search_start = at; ends = some e; memo = memo })
        | false ↦
            if lib.match_string re (take (at - chars) (drop chars path))
            then inl (captured_to at s.memo)
            else inr (record s { search_start = at + 1; evaluated = true })
      ]
    ]
  ]

  -- A round of the loop, behind the search for the next end.
  unfoldable pub round_at : Bytes → Option ℕ × Scan M E → ScanEnd M E ⊎ Scan M E
  unfolding evaluate
  round_at k (none, s) = inl (ran_out s.end s.memo)
  round_at k (some at, s) =
      if at == chars
      then inr (record s { search_start = s.search_start + 1 })
      else if fits_key k at
      then evaluate s at
      else inr (record s { search_start = at + 1 })

  unfoldable pub scan_round : Bytes → Bool → Scan M E → ScanEnd M E ⊎ Scan M E
  unfolding capture_end round_at
  scan_round k single s = round_at k (capture_end single s)

  unfoldable pub scan : ℕ → Bytes → Bool → Scan M E → ScanEnd M E
  unfolding scan_round
  scan zero k single s = no_fuel s.memo
  scan (suc f) k single s = elim (scan_round k single s) [ inl e ↦ e | inr s' ↦ scan f k single s' ]

-- The loop over the infix wildcards ends in a jump, or with a candidate or none.
pub data Infix (M E : Type 0) : Type 0 where
  jumped : Goto M E → Infix M E
  tried : Option (Found M) → PathWalk M E → Infix M E

module _ {M E : Type 0} where
  -- The end of the loop over the suffix wildcards: the candidate, if there is one.
  abbrev pub fallback : Option (Found M) → PathWalk M E → Goto M E
  fallback none s = backtrack s
  fallback (some f) s = finish (found f) s.memo

  abbrev pub or_next : (LookupState M E → Goto M E) → Option (Found M) × LookupState M E → Goto M E
  or_next k (some f, memo) = finish (found f) memo
  or_next k (none, memo) = k memo

module _ {M E : Type 0} (lib : Library M E) (method : Bytes) (lazy : Bool) (path : Bytes) where
  -- The static child "/" that is a leaf.
  unfoldable pub tail_child : Node M → Option (Node M)
  unfolding get_static_edge
  tail_child w = elim (get_static_edge w b'/') [
    | none ↦ none
    | some (idx, child) ↦ if is_leaf child && beq (key child) slash then some child else none
  ]

  -- The expression of the wildcard matches all that is left.
  unfoldable pub tail_matches : Node M → Bytes → LookupState M E → Bool × LookupState M E
  unfolding match_tail
  tail_matches w search memo = elim (head w).regexp [
    | none ↦ (true, memo)
    | some re ↦ match_tail lib memo w re search
  ]

  -- The candidate with a slash behind the path, where the scan has reached the end of the path.
  unfoldable pub tail_candidate :
      PathWalk M E → Node M → ℕ → LookupState M E → Option (Found M) × LookupState M E
  unfolding tail_child tail_matches leaf_match
  tail_candidate s w end memo =
      if (end == length path) && not (get_or path (length path - 1) 0 == b'/')
      then elim (tail_child w) [
        | none ↦ (none, memo)
        | some child ↦
            let (ok, memo') = tail_matches w (search_of path s) memo in
            if ok
            then leaf_match lib method lazy allows_slash true child
                (record_param lazy s.captured (search_of path s)) memo'
            else (none, memo')
      ]
      else (none, memo)

  abbrev pub descend_infix : PathWalk M E → ℕ → Node M → ℕ → LookupState M E → PathWalk M E
  descend_infix s i w at memo =
      record (step_into
        (push_if true (with_memo s memo) (
          skip_node s (count (params s.matched)) (i + s.child_wildcard_idx)
            (at - s.chars_matched + 1)))
        w (at - s.chars_matched)
        (record_param lazy s.captured (take (at - s.chars_matched) (search_of path s)))) {
          child_param_idx = 0;
          child_wildcard_idx = 0;
          wildcard_offset = 0;
        }

  abbrev pub mark_scanned : PathWalk M E → Node M → LookupState M E → LookupState M E
  mark_scanned s w memo = elim (head w).regexp [
    | none ↦ mark_exhausted lib memo w s.chars_matched
    | some re ↦ memo
  ]

  -- The scan has run out: a candidate, the next wildcard behind a backtrack, or the end of the loop.
  unfoldable pub after_scan :
      PathWalk M E → ℕ → Node M → Bool → Option (Found M) × LookupState M E → Infix M E
  unfolding mark_exhausted
  after_scan s i w more (some f, memo) = tried (some f) (with_memo s memo)
  after_scan s i w true (none, memo) = jumped (
      backtrack (
        push_if true (with_memo s (mark_scanned s w memo))
          (skip_node s (count (params s.matched)) (i + 1 + s.child_wildcard_idx) 0)))
  after_scan s i w false (none, memo) = tried none (with_memo s (mark_scanned s w memo))

  unfoldable pub with_scan : PathWalk M E → ℕ → Node M → Bool → ScanEnd M E → Infix M E
  unfolding after_scan tail_candidate
  with_scan s i w more (captured_to at memo) = jumped (walk (descend_infix s i w at memo))
  with_scan s i w more (ran_out end memo) = after_scan s i w more (tail_candidate s w end memo)
  with_scan s i w more (no_fuel memo) = jumped (finish scan_out_of_fuel memo)

  -- The static child of an infix wildcard, and the scan from these variables.
  unfoldable pub scan_from : PathWalk M E → Node M → Node M → Scan M E → ScanEnd M E
  unfolding scan
  scan_from s w child v =
      let single : Bool = elim (head w).regexp [
        | none ↦ false
        | some re ↦ not (head w).nested && not (lib.consumes re b'/')
      ] in
      scan lib path w s.chars_matched (suc (length path + (length path + 2))) (key child) single v

  abbrev pub scan_vars : PathWalk M E → ℕ → Bool → Option E → LookupState M E → Scan M E
  scan_vars s end evaluated ends memo = record {
    search_start = s.chars_matched + s.wildcard_offset;
    end = end;
    evaluated = evaluated;
    ends = ends;
    memo = memo;
  }

  unfoldable pub infix_at : PathWalk M E → ℕ → Node M → Node M → Bool → Infix M E
  unfolding with_scan scan_from scan_end ends_of retry_scan
  infix_at s i w child more =
      let go = λ (v : Scan M E). with_scan s i w more (scan_from s w child v) in
      let evaluated = ltb 0 s.wildcard_offset in
      elim (head w).regexp [
        | none ↦ go (
            scan_vars s (scan_end lib s.memo w (s.chars_matched + s.wildcard_offset) (length path))
              evaluated none s.memo)
        | some re ↦ elim evaluated [
          | true ↦
              let (e, memo) = ends_of lib s.memo w re path s.chars_matched b'/' in
              go (scan_vars s (length path) true (some e) memo)
          | false ↦ elim (head w).nested [
            | false ↦ go (scan_vars s (length path) false none s.memo)
            | true ↦
                let (retry, memo) = retry_scan lib s.memo w s.chars_matched in
                elim retry [
                  | true ↦ jumped (vm (with_memo s memo))
                  | false ↦ go (scan_vars s (length path) false none memo)
                ]
          ]
        ]
      ]

  unfoldable pub infix_from : PathWalk M E → ℕ → Nodes M → Infix M E
  unfolding infix_at
  infix_from s i nil = tried none s
  infix_from s i (cons w ws) = elim (statics w) [
    | nil ↦ infix_from s (suc i) ws
    | cons child cs ↦ infix_at s i w child (not (no_nodes ws))
  ]

  unfoldable pub take_rest :
      PathWalk M E → Node M → (LookupState M E → Goto M E) → LookupState M E → Goto M E
  unfolding leaf_match
  take_rest s w k memo = or_next k (
      leaf_match lib method lazy any_route false w (record_param lazy s.captured (search_of path s))
        memo)

  unfoldable pub suffix_from :
      Option (Found M) → PathWalk M E → Nodes M → LookupState M E → Goto M E
  unfolding take_rest retry_suffix
  suffix_from candidate s nil memo = fallback candidate (with_memo s memo)
  suffix_from candidate s (cons w ws) memo = elim (is_leaf w) [
    | false ↦ suffix_from candidate s ws memo
    | true ↦ elim (head w).regexp [
      | none ↦ take_rest s w (λ m. suffix_from candidate s ws m) memo
      | some re ↦
          let (retry, memo') = if (head w).nested then retry_suffix lib memo w else (false, memo) in
          elim retry [
            | true ↦ vm (with_memo s memo')
            | false ↦ elim (lib.match_string re (search_of path s)) [
              | false ↦ suffix_from candidate s ws memo'
              | true ↦ take_rest s w (λ m. suffix_from candidate s ws m) memo'
            ]
          ]
    ]
  ]

  unfoldable pub after_infix : Infix M E → Goto M E
  unfolding suffix_from
  after_infix (jumped g) = g
  after_infix (tried candidate s) = suffix_from candidate s (wildcards s.matched) s.memo

  unfoldable pub try_wildcards : Node M → PathWalk M E → Goto M E
  unfolding infix_from after_infix
  try_wildcards root s =
      let ws = drop_nodes s.child_wildcard_idx (wildcards s.matched) in
      if not (no_nodes ws) && is_below lib root s
      then after_infix (infix_from s 0 ws)
      else backtrack s
