-- ===== src/Tree/Names.antt =====
-- tree.go: the tree of route names (insertName, insertNameIn, deleteName, deleteNameIn), and its
-- search in node.go (searchName). The fuel of each is one more than the length of the name: a call
-- goes on behind the key of a child, which has at least one byte.
pub mod Insert
use mathlib.Core.Option
use fox.Prelude.{
  ℕ, zero, suc, ◌+◌, Bool, true, false, ◌&&◌, not, Option, none, some, List, [], ◌∷◌, ◌==◌,
  if◌then◌else◌, length, take, drop, min, Bytes, beq, has_prefix,
}
use fox.Route.{Route, is_nil}
use fox.Node.{
  Node, Nodes, nil, cons, key, routes, statics, with_routes, with_statics, count, put, is_leaf,
  get_static_edge, add_static_edge, del_static_edge,
}
use fox.Tree.{
  InsertMode, mode_insert, mode_update, Error, Result, ok, err, ◌>>=◌, name_conflict, internal,
  out_of_fuel, longest_prefix, static_node, cut_child, replace_edge, merge_child,
}

module _ {M : Type 0} where
  -- The name ends at `n`.
  unfoldable pub set_name : Node M → Route M → InsertMode → Result M (Node M)
  set_name n route mode_update = ok (with_routes n (route ∷ []))
  set_name n route mode_insert = elim (routes n) [
    | [] ↦ ok (with_routes n (route ∷ []))
    | r ∷ rs ↦ err (name_conflict route r)
  ]

  -- The key of the child and the name part behind `prefix` bytes.
  unfoldable pub split_name : Node M → Node M → Bytes → ℕ → Route M → Result M (Node M)
  unfolding replace_edge cut_child
  split_name n child search prefix route =
      let fork =
        add_static_edge (static_node (take prefix search) false []) (cut_child child prefix) in
      elim (drop prefix search) [
        | [] ↦ replace_edge n (with_routes fork (route ∷ []))
        | b ∷ rest ↦
            replace_edge n (add_static_edge fork (static_node (b ∷ rest) false (route ∷ [])))
      ]

  unfoldable pub insert_name_in : ℕ → Node M → Bytes → Route M → InsertMode → Result M (Node M)
  unfolding set_name split_name
  insert_name_in zero n search route mode = err out_of_fuel
  insert_name_in (suc f) n [] route mode = set_name n route mode
  insert_name_in (suc f) n (b ∷ s) route mode = elim (get_static_edge n b) [
    | none ↦ ok (add_static_edge n (static_node (b ∷ s) false (route ∷ [])))
    | some (idx, child) ↦
        let prefix = longest_prefix (b ∷ s) (key child) in
        elim (prefix == length (key child)) [
          | true ↦ insert_name_in f child (drop prefix (b ∷ s)) route mode >>= λ c.
              ok (with_statics n (put (statics n) idx c))
          | false ↦ split_name n child (b ∷ s) prefix route
        ]
  ]

  unfoldable pub insert_name : Node M → Route M → InsertMode → Result M (Node M)
  unfolding insert_name_in
  insert_name names route mode =
      insert_name_in (suc (length route.name)) names route.name route mode

  -- `len(nc.statics) == 1` and the node is not the root.
  unfoldable pub merge_single : Bool → Node M → Node M
  unfolding merge_child
  merge_single at_root n = if not at_root && count (statics n) == 1 then merge_child n else n

  -- The old node without the child, or with the new child in its place.
  unfoldable pub after_name : Bool → Node M → ℕ → ℕ → Node M → Node M
  unfolding merge_single is_leaf
  after_name at_root n b idx c =
      if not (is_leaf c) && count (statics c) == 0
      then (let nc = del_static_edge n b in if is_leaf nc then nc else merge_single at_root nc)
      else with_statics n (put (statics n) idx c)

  -- `at_root` is `n == root`; `none` is the nil that reports a name which is not there.
  unfoldable pub delete_name_in : ℕ → Bool → Node M → Bytes → Result M (Option (Node M))
  unfolding merge_single is_leaf after_name
  delete_name_in zero at_root n search = err out_of_fuel
  delete_name_in (suc f) at_root n [] =
      ok (if is_leaf n then some (merge_single at_root (with_routes n [])) else none)
  delete_name_in (suc f) at_root n (b ∷ s) = elim (get_static_edge n b) [
    | none ↦ ok none
    | some (idx, child) ↦ elim (has_prefix (b ∷ s) (key child)) [
      | false ↦ ok none
      | true ↦ delete_name_in f false child (drop (length (key child)) (b ∷ s)) >>= λ c.
          ok (Option.map (after_name at_root n b idx) c)
    ]
  ]

  unfoldable pub delete_name : Node M → Route M → Result M (Option (Node M))
  unfolding delete_name_in
  delete_name names route = delete_name_in (suc (length route.name)) true names route.name

  -- searchName: the node at the name, or the one whose key goes on behind it.
  unfoldable pub search_name : ℕ → Node M → Bytes → Option (Node M)
  search_name zero n search = none
  search_name (suc f) n [] = some n
  search_name (suc f) n (b ∷ s) = elim (get_static_edge n b) [
    | none ↦ none
    | some (idx, child) ↦
        let len = min (length (key child)) (length (b ∷ s)) in
        elim (beq (take len (b ∷ s)) (take len (key child))) [
          | false ↦ none
          | true ↦ search_name f child (drop len (b ∷ s))
        ]
  ]
