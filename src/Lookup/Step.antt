-- ===== src/Lookup/Step.antt =====
-- node.go: lookupByPath, the static child, the parameters, the end of the path, and Backtrack.
use fox.Prelude.{
  ℕ, suc, ◌+◌, ◌-◌, Bool, true, false, ◌&&◌, ◌||◌, not, Option, none, some, List, [], ◌∷◌, ◌==◌,
  if◌then◌else◌, length, take, drop, get_or, leb, ltb, Bytes, beq, has_prefix, index_byte,
}
use fox.Route.{Route}
use fox.Node.{Node, Nodes, nil, cons, head, key, routes, params, wildcards, count, get_static_edge}
use fox.Lookup.{Library, LookupState}
use fox.Lookup.Accept.{is_exact_slash, first_match}
use fox.Lookup.State.{
  PathWalk, Found, found, missed, Goto, walk, backtrack, finish, Try, went, fell, has_suffix,
  drop_nodes, no_nodes, record_param, skip_node, push_if, with_memo, step_into, resume,
}

abbrev pub slash : Bytes
slash = b'/' ∷ []

module _ {M : Type 0} where
  abbrev pub allows_slash : Route M → Bool
  allows_slash r = not (is_exact_slash r.handle_slash)

  abbrev pub optional_allows : Route M → Bool
  optional_allows r = not (is_exact_slash r.handle_slash) && r.pattern.optional_catch_all

  abbrev pub parent_allows : Route M → Bool
  parent_allows r = not (is_exact_slash r.handle_slash) && not r.pattern.catch_all

  abbrev pub is_optional : Route M → Bool
  is_optional r = r.pattern.optional_catch_all

  abbrev pub any_route : Route M → Bool
  any_route r = true

  abbrev pub has_choices : Node M → Bool
  has_choices n = not (no_nodes (params n)) || not (no_nodes (wildcards n))

module _ {M E : Type 0} where
  abbrev pub search_of : Bytes → PathWalk M E → Bytes
  search_of path s = drop s.chars_matched path

  -- `matched != root`
  abbrev pub is_below : Library M E → Node M → PathWalk M E → Bool
  is_below lib root s = not (lib.same_node s.matched root)

module _ {M : Type 0} where
  -- The child "/", where the path does not end in a slash.
  unfoldable pub slash_child : Bytes → Node M → Option (Node M)
  unfolding has_suffix get_static_edge
  slash_child path n = elim (get_static_edge n b'/') [
    | none ↦ none
    | some (idx, child) ↦
        if beq (key child) slash && not (has_suffix path slash) then some child else none
  ]

module _ {M E : Type 0} where
  abbrev pub or_fall : PathWalk M E → Option (Found M) × LookupState M E → Try M E
  or_fall s (some f, memo) = went (finish (found f) memo)
  or_fall s (none, memo) = fell (with_memo s memo)

  abbrev pub or_else :
      PathWalk M E → (PathWalk M E → Goto M E) → Option (Found M) × LookupState M E → Goto M E
  or_else s k (some f, memo) = finish (found f) memo
  or_else s k (none, memo) = k (with_memo s memo)

  abbrev pub pop : PathWalk M E → Goto M E
  pop s = elim s.stack [ [] ↦ finish missed s.memo | f ∷ rest ↦ walk (resume s f rest) ]

-- The child's key is `search` and a slash, and does not end in two.
unfoldable pub is_search_slash : Bytes → Bytes → Bool
is_search_slash k search =
    (length k == length search + 1)
    && (get_or k (length k - 1) 0 == b'/')
    && not (get_or k (length k - 2) 0 == b'/')
    && has_prefix k search

unfoldable pub segment_end : Bytes → ℕ
segment_end search = elim (index_byte search b'/') [ none ↦ length search | some i ↦ i ]

module _ {M E : Type 0} (lib : Library M E) (method : Bytes) (lazy : Bool) where
  -- The first wildcard with a route that passes the test and takes the request.
  unfoldable pub first_wildcard :
      (Route M → Bool) → Nodes M → LookupState M E → Option (ℕ × Node M) × LookupState M E
  first_wildcard test nil memo = (none, memo)
  first_wildcard test (cons w ws) memo =
      let (i, memo') = first_match lib method test (routes w) memo in
      elim i [ some i ↦ (some (i, w), memo') | none ↦ first_wildcard test ws memo' ]

  abbrev found_in : Bool → List Bytes → Option (ℕ × Node M) → Option (Found M)
  found_in tsr captured none = none
  found_in tsr captured (some (i, n)) =
      some (record { index = i; node = n; tsr = tsr; captured = captured })

  -- A route of this leaf.
  unfoldable pub leaf_match :
      (Route M → Bool)
      → Bool
      → Node M
      → List Bytes
      → LookupState M E
      → Option (Found M) × LookupState M E
  leaf_match test tsr n captured memo =
      let (i, memo') = first_match lib method test (routes n) memo in
      elim i [
        | some i ↦ (some (record { index = i; node = n; tsr = tsr; captured = captured }), memo')
        | none ↦ (none, memo')
      ]

  -- A route of a wildcard that takes an empty capture.
  unfoldable pub empty_match :
      (Route M → Bool)
      → Bool
      → Node M
      → List Bytes
      → LookupState M E
      → Option (Found M) × LookupState M E
  unfolding first_wildcard
  empty_match test tsr n captured memo =
      let (p, memo') = first_wildcard test (wildcards n) memo in
      (found_in tsr (record_param lazy captured []) p, memo')

  unfoldable pub match_trailing_slash :
      Node M → List Bytes → LookupState M E → Option (Found M) × LookupState M E
  unfolding leaf_match empty_match
  match_trailing_slash child captured memo =
      let (f, memo') = leaf_match allows_slash true child captured memo in
      elim f [
        | some f ↦ (some f, memo')
        | none ↦ empty_match optional_allows true child captured memo'
      ]

  unfoldable pub try_child : Node M → PathWalk M E → Node M → Bytes → Try M E
  unfolding match_trailing_slash is_search_slash
  try_child root s child search =
      let k = key child in
      if (length k == 1) || (leb (length k) (length search) && beq (take (length k) search) k)
      then went (
          walk (
            step_into (push_if (has_choices s.matched && is_below lib root s) s (skip_node s 0 0 0))
              child (length k) s.captured))
      else if is_search_slash k search
      then or_fall s (match_trailing_slash child s.captured s.memo)
      else fell s

  unfoldable pub static_at : Node M → Bytes → PathWalk M E → Try M E
  unfolding try_child get_static_edge
  static_at root path s = elim (search_of path s) [
    | [] ↦ fell s
    | label ∷ rest ↦ elim (get_static_edge s.matched label) [
      | none ↦ fell s
      | some (idx, child) ↦ try_child root s child (label ∷ rest)
    ]
  ]

  unfoldable pub try_static : Node M → Bytes → PathWalk M E → Try M E
  unfolding static_at
  try_static root path s = elim s.skip_static [ true ↦ fell s | false ↦ static_at root path s ]

  -- The first parameter whose expression matches.
  unfoldable pub pick_param : ℕ → Nodes M → Bytes → Option (ℕ × Node M)
  pick_param i nil segment = none
  pick_param i (cons p ps) segment = elim (head p).regexp [
    | none ↦ some (i, p)
    | some re ↦
        let rest = pick_param (suc i) ps segment in
        if lib.match_string re segment then some (i, p) else rest
  ]

  unfoldable pub try_param : PathWalk M E → Nodes M → Bytes → Try M E
  unfolding pick_param segment_end
  try_param s ps search =
      let end = segment_end search in
      let has_wildcards = not (no_nodes (wildcards s.matched)) in
      if end == 0
      then went (backtrack (push_if has_wildcards s (skip_node s (count (params s.matched)) 0 0)))
      else elim (pick_param 0 ps (take end search)) [
        | none ↦ fell s
        | some (i, p) ↦ went (
            walk
              (record (step_into
                (push_if (ltb (i + 1) (count ps) || has_wildcards) s
                  (skip_node s (i + 1 + s.child_param_idx) 0 0))
                p end (record_param lazy s.captured (take end search))) { child_param_idx = 0 }))
      ]

  unfoldable pub try_params : Node M → Bytes → PathWalk M E → Try M E
  unfolding try_param
  try_params root path s0 =
      let s = record s0 { skip_static = false } in
      let ps = drop_nodes s.child_param_idx (params s.matched) in
      if not (no_nodes ps) && is_below lib root s then try_param s ps (search_of path s) else fell s

  -- A candidate with the slash of the path added or taken away, at the end of the path.
  unfoldable pub end_slash : Bytes → PathWalk M E → Option (Found M) × LookupState M E
  unfolding match_trailing_slash leaf_match has_suffix slash_child
  end_slash path s = elim (slash_child path s.matched) [
    | some child ↦ match_trailing_slash child s.captured s.memo
    | none ↦
        if beq (key s.matched) slash && not (has_suffix path (b'/' ∷ b'/' ∷ []))
        then elim s.parent [
          | none ↦ (none, s.memo)
          | some p ↦ leaf_match parent_allows true p s.captured s.memo
        ]
        else (none, s.memo)
  ]

  unfoldable pub end_of_path : Bytes → PathWalk M E → Goto M E
  unfolding leaf_match empty_match end_slash
  end_of_path path s =
      or_else s
        (λ s'.
          or_else s' (λ s''. or_else s'' backtrack (end_slash path s''))
            (empty_match is_optional false s'.matched s'.captured s'.memo))
        (leaf_match any_route false s.matched s.captured s.memo)

  unfoldable pub back : Bytes → PathWalk M E → Goto M E
  unfolding leaf_match has_suffix
  back path s =
      if beq (search_of path s) slash && not (has_suffix path (b'/' ∷ b'/' ∷ []))
      then or_else s pop (leaf_match parent_allows true s.matched s.captured s.memo)
      else pop s
