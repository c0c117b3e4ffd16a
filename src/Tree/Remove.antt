-- ===== src/Tree/Remove.antt =====
-- tree.go: the walk of deleteTokens (deleteStatic, deleteParam, deleteWildcard). The answer is the
-- node, the deleted route and the new names; `none` is (nil, nil), a route that is not there. One unit
-- of fuel is one call of deleteTokens; `at_root` is `n == root`.
use fox.Prelude.{
  ℕ, zero, suc, Bool, true, false, ◌&&◌, not, Option, none, some, List, [], ◌∷◌, ◌==◌,
  if◌then◌else◌, length, drop, Bytes, has_prefix,
}
use fox.Route.{static, param, wildcard, Token, Route, is_nil}
use fox.Node.{
  Node, key, routes, statics, params, wildcards, with_statics, with_params, with_wildcards, count,
  put, is_leaf, get_static_edge, del_static_edge, get_param_edge, del_param_edge, get_wildcard_edge,
  del_wildcard_edge,
}
use fox.Node.Order.{del_route}
use fox.Tree.{merge_child, Result, ok, err, ◌>>=◌, internal, out_of_fuel}
use fox.Tree.Insert.{canonical_key, index_func, same_route, drop_name}
use fox.Tree.Walk.{static_token}

module _ {M : Type 0} where
  -- A node with no route and no child is removed.
  unfoldable pub is_void : Node M → Bool
  unfolding is_leaf
  is_void n =
      not (is_leaf n) && count (statics n) == 0 && count (params n) == 0 && count (wildcards n) == 0

  -- The test before mergeChild: not the root, no route, and one static child only.
  unfoldable pub merge_lone : Bool → Node M → Node M
  unfolding is_leaf merge_child
  merge_lone at_root n =
      if not at_root
        && not (is_leaf n)
        && count (statics n) == 1
        && count (params n) == 0
        && count (wildcards n) == 0
      then merge_child n
      else n

-- A call of deleteTokens, and its answer.
abbrev pub Removed : Type 0 → Type 0
Removed M = Result M (Option (Node M × Route M × Node M))

abbrev pub DeleteWalk : Type 0 → Type 0
DeleteWalk M = Bool → Node M → List Token → Removed M

module _ {M : Type 0} where
  -- The old node without the child, or with the new child in its place.
  abbrev pub after_delete : Bool → Removed M → Node M → (Node M → Node M) → Removed M
  after_delete at_root (err e) without replaced = err e
  after_delete at_root (ok none) without replaced = ok none
  after_delete at_root (ok (some (c, old, names))) without replaced =
      ok (some (if is_void c then merge_lone at_root without else replaced c, old, names))

  unfoldable pub delete_static : DeleteWalk M → Bool → Node M → Bytes → List Token → Removed M
  unfolding is_void merge_lone
  delete_static walk at_root n [] remaining = walk at_root n remaining
  delete_static walk at_root n (b ∷ s) remaining = elim (get_static_edge n b) [
    | none ↦ ok none
    | some (idx, child) ↦ elim (has_prefix (b ∷ s) (key child)) [
      | false ↦ ok none
      | true ↦
          let search = drop (length (key child)) (b ∷ s) in
          let rest : List Token = elim search [
            | [] ↦ remaining
            | x ∷ xs ↦ static_token (x ∷ xs) false ∷ remaining
          ] in
          after_delete at_root (walk false child rest) (del_static_edge n b)
            (λ c. with_statics n (put (statics n) idx c))
    ]
  ]

  -- The `none` of canonical_key is a panic.
  unfoldable pub delete_param : DeleteWalk M → Bool → Node M → Option Bytes → List Token → Removed M
  unfolding is_void merge_lone
  delete_param walk at_root n none remaining = err internal
  delete_param walk at_root n (some k) remaining = elim (get_param_edge n k) [
    | none ↦ ok none
    | some (idx, child) ↦
        after_delete at_root (walk false child remaining) (del_param_edge n k)
          (λ c. with_params n (put (params n) idx c))
  ]

  unfoldable pub delete_wildcard :
      DeleteWalk M → Bool → Node M → Option Bytes → List Token → Removed M
  unfolding is_void merge_lone
  delete_wildcard walk at_root n none remaining = err internal
  delete_wildcard walk at_root n (some k) remaining = elim (get_wildcard_edge n k) [
    | none ↦ ok none
    | some (idx, child) ↦
        after_delete at_root (walk false child remaining) (del_wildcard_edge n k)
          (λ c. with_wildcards n (put (wildcards n) idx c))
  ]

module _ {M : Type 0} where
  -- deleteName when the route has a name.
  unfoldable pub drop_old : Node M → Route M → Result M (Node M)
  unfolding drop_name
  drop_old names old = if is_nil old.name then ok names else drop_name names old

module _ {M : Type 0} (equal : M → M → Bool) where
  -- No tokens are left.
  unfoldable pub detach : Bool → Node M → Node M → Route M → Removed M
  unfolding same_route drop_old del_route merge_lone is_leaf
  detach at_root n names route =
      if not (is_leaf n) then ok none else elim (index_func (same_route equal route) (routes n)) [
        | none ↦ ok none
        | some (idx, old) ↦ drop_old names old >>= λ names'.
            ok (some (merge_lone at_root (del_route n idx), old, names'))
      ]

  unfoldable pub delete_tokens : ℕ → Node M → Route M → Bool → Node M → List Token → Removed M
  unfolding detach delete_static delete_param delete_wildcard canonical_key
  delete_tokens zero names route at_root n tokens = err out_of_fuel
  delete_tokens (suc f) names route at_root n [] = detach at_root n names route
  delete_tokens (suc f) names route at_root n (tk ∷ remaining) = elim tk.typ [
    | static ↦ delete_static (delete_tokens f names route) at_root n tk.value remaining
    | param ↦ delete_param (delete_tokens f names route) at_root n (canonical_key tk) remaining
    | wildcard ↦
        delete_wildcard (delete_tokens f names route) at_root n (canonical_key tk) remaining
  ]
