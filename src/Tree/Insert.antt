-- ===== src/Tree/Insert.antt =====
-- tree.go: insertion in the routing tree (insertTokens, insertStatic, insertParam, insertWildcard).
-- The tree of names is passed along: a successful insertion answers the node and the new names. One
-- unit of fuel is one call of insertTokens. `equal` is the Equal method of the matchers.

pub mod Clashes
pub mod Conflicts
use mathlib.Core.Option
use fox.Prelude.{
  ℕ, zero, suc, ◌+◌, ◌-◌, Bool, true, false, ◌&&◌, ◌||◌, Option, none, some, List, [], ◌∷◌, ◌++◌,
  ◌==◌, if◌then◌else◌, length, take, drop, Bytes, beq, has_prefix, compare_bytes, is_empty, codes,
}
use fox.Slices.{overlap}
use fox.Route.{
  NodeType, static, param, wildcard, Token, Route, is_nil, matchers_equal, matchers_within,
}
use fox.Node.{
  Node, Nodes, node, nil, cons, key, routes, statics, params, wildcards, with_statics, with_params,
  with_wildcards, put, is_leaf, get_static_edge, add_static_edge, get_param_edge, add_param_edge,
  get_wildcard_edge, add_wildcard_edge,
}
use fox.Node.Order.{add_route, replace_route}
use fox.Tree.{
  InsertMode, mode_insert, mode_update, Error, Result, ok, err, ◌>>=◌, route_not_found,
  route_conflict, internal, out_of_fuel, longest_prefix, static_node, cut_child, replace_edge,
}
use fox.Tree.Names.{insert_name, delete_name}

-- rawExpr: the expression without the "^(?:" or "(?i)^(?:", and the ")$", that parsing puts around it.
unfoldable pub raw_expr : Bytes → Bytes
raw_expr expr =
    if has_prefix expr (codes "(?i)")
    then take (length expr - 10) (drop 8 expr)
    else take (length expr - 6) (drop 4 expr)

-- `none` is the panic on a static token without a regexp.
unfoldable pub canonical_key : Token → Option Bytes
unfolding raw_expr
canonical_key tk = elim tk.regexp [
  | some re ↦ some (raw_expr re)
  | none ↦ elim tk.typ [ static ↦ none | param ↦ some (b'?' ∷ []) | wildcard ↦ some (b'*' ∷ []) ]
]

-- slices.Equal on methods.
unfoldable pub methods_equal : List Bytes → List Bytes → Bool
methods_equal [] [] = true
methods_equal [] (y ∷ ys) = false
methods_equal (x ∷ xs) [] = false
methods_equal (x ∷ xs) (y ∷ ys) = beq x y && methods_equal xs ys

module _ {M : Type 0} where
  abbrev pub filter_routes : (Route M → Bool) → List (Route M) → List (Route M)
  filter_routes f [] = []
  filter_routes f (r ∷ rs) = if f r then r ∷ filter_routes f rs else filter_routes f rs

  -- The routes of all the nodes of a list.
  abbrev pub all_routes : Nodes M → List (Route M)
  all_routes nil = []
  all_routes (cons c cs) = routes c ++ all_routes cs

  abbrev pub index_func : (Route M → Bool) → List (Route M) → Option (ℕ × Route M)
  index_func f [] = none
  index_func f (r ∷ rs) =
      if f r then some (0, r) else Option.map (λ p. (suc p.0, p.1)) (index_func f rs)

module _ {M : Type 0} where
  -- insertName when the route has a name.
  unfoldable pub insert_named : Node M → Route M → Result M (Node M)
  unfolding insert_name
  insert_named names route =
      if is_empty route.name then ok names else insert_name names route mode_insert

  -- deleteName, whose answer is not looked at.
  unfoldable pub drop_name : Node M → Route M → Result M (Node M)
  unfolding delete_name
  drop_name names old =
      delete_name names old >>= λ found. ok (elim found [ none ↦ names | some names' ↦ names' ])

  -- A panic on an error.
  abbrev pub or_internal : Result M (Node M) → Result M (Node M)
  or_internal (ok names) = ok names
  or_internal (err e) = err internal

  -- The names after an update of `old`: the new name is inserted before the old one is deleted, and
  -- an insertion in modeUpdate cannot fail but by a panic.
  unfoldable pub update_names : Node M → Route M → Route M → Result M (Node M)
  unfolding insert_named drop_name
  update_names names old route =
      if is_empty old.name
      then insert_named names route
      else if is_empty route.name
      then drop_name names old
      else if beq old.name route.name
      then or_internal (insert_name names route mode_update)
      else insert_name names route mode_insert >>= λ names'. drop_name names' old

module _ {M : Type 0} (equal : M → M → Bool) where
  -- The three tests of modeInsert: routes of the leaf with the same matchers and a common method;
  -- routes of the parent, or of an optional catch-all below, that shadow or are shadowed.
  unfoldable pub is_conflict : Route M → Route M → Bool
  unfolding matchers_equal
  is_conflict route r =
      matchers_equal equal r route.matchers && overlap compare_bytes r.methods route.methods

  unfoldable pub shadows : Route M → Route M → Bool
  unfolding matchers_within
  shadows r by =
      matchers_within equal r by.matchers
      && (is_nil r.methods || overlap compare_bytes r.methods by.methods)

  unfoldable pub leaf_conflicts : Node M → Route M → List (Route M)
  unfolding is_conflict
  leaf_conflicts n route = filter_routes (is_conflict route) (routes n)

  unfoldable pub parent_conflicts : Option (Node M) → Route M → List (Route M)
  unfolding shadows
  parent_conflicts none route = []
  parent_conflicts (some p) route =
      if route.pattern.optional_catch_all
      then filter_routes (λ r. shadows r route) (routes p)
      else []

  unfoldable pub catch_all_conflicts : Node M → Route M → List (Route M)
  unfolding shadows
  catch_all_conflicts n route =
      filter_routes (λ r. r.pattern.optional_catch_all && shadows route r)
        (all_routes (wildcards n))

  unfoldable pub attach : Option (Node M) → Node M → Node M → Route M → Result M (Node M × Node M)
  unfolding leaf_conflicts parent_conflicts catch_all_conflicts insert_named add_route
  attach p n names route = elim (leaf_conflicts n route) [
    | r ∷ rs ↦ err (route_conflict route (r ∷ rs) false)
    | [] ↦ elim (parent_conflicts p route) [
      | r ∷ rs ↦ err (route_conflict route (r ∷ rs) true)
      | [] ↦ elim (catch_all_conflicts n route) [
        | r ∷ rs ↦ err (route_conflict route (r ∷ rs) true)
        | [] ↦ insert_named names route >>= λ names'. ok (add_route n route, names')
      ]
    ]
  ]

  -- The route that an update or a deletion means.
  unfoldable pub same_route : Route M → Route M → Bool
  unfolding methods_equal matchers_equal
  same_route route r =
      beq r.pattern.str route.pattern.str
      && methods_equal r.methods route.methods
      && matchers_equal equal r route.matchers

  unfoldable pub update_at : Node M → Node M → Route M → Result M (Node M × Node M)
  unfolding same_route update_names replace_route
  update_at n names route = elim (index_func (same_route route) (routes n)) [
    | none ↦ err (route_not_found route)
    | some (idx, old) ↦
        update_names names old route >>= λ names'. ok (replace_route n idx route, names')
  ]
