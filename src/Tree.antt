-- ===== src/Tree.antt =====
-- tree.go: what the operations on the two trees of a transaction share. writeNode copies a node
-- before it is changed; over values a copy is the node itself, and stands for nothing here.
pub mod Prefix
pub mod Split
pub mod Names
pub mod Insert
pub mod Walk
pub mod Remove
pub mod Txn
mod Depth
pub mod Ends
use mathlib.Core.Option
use fox.Prelude.{
  ℕ, zero, suc, ◌≡◌, Bool, true, false, Option, none, some, List, [], ◌∷◌, ◌++◌, ◌==◌,
  if◌then◌else◌, get_or, drop, take, Bytes, has_prefix,
}
use fox.Route.{Route, is_nil}
use fox.Node.{
  Head, Node, Nodes, node, nil, cons, label, key, head, routes, statics, params, wildcards,
  with_head, with_statics, replace_static_edge,
}

pub data InsertMode : Type 0 where
  mode_insert mode_update : InsertMode

-- The errors of a write on the trees; `internal` is a panic with "internal error".
pub data Error (M : Type 0) : Type 0 where
  route_not_found : Route M → Error M
  name_conflict : Route M → Route M → Error M
  route_conflict : Route M → List (Route M) → Bool → Error M
  internal : Error M
  out_of_fuel : Error M

pub data Result (M A : Type 0) : Type 0 where
  ok : A → Result M A
  err : Error M → Result M A

infixl 5 ◌>>=◌
abbrev pub ◌>>=◌ : {M A B : Type 0} → Result M A → (A → Result M B) → Result M B
ok a >>= f = f a
err e >>= f = err e

-- The loop of longestPrefix.
unfoldable pub longest_prefix : Bytes → Bytes → ℕ
longest_prefix [] k2 = 0
longest_prefix (x ∷ k1) [] = 0
longest_prefix (x ∷ k1) (y ∷ k2) = if x == y then suc (longest_prefix k1 k2) else 0

module _ {M : Type 0} where
  -- A node with these bytes for a key; `search[0]` is its label.
  abbrev pub static_node : Bytes → Bool → List (Route M) → Node M
  static_node search host rs =
      node
        (record {
          label = get_or search 0 0;
          key = search;
          regexp = none;
          host = host;
          nested = false;
        })
        rs nil nil nil

  -- modChild: the child without the first `n` bytes of its key.
  unfoldable pub cut_child : Node M → ℕ → Node M
  cut_child child n =
      let h = head child in
      with_head child (record h { label = get_or h.key n 0; key = drop n h.key })

  unfoldable pub replace_edge : Node M → Node M → Result M (Node M)
  replace_edge n child = elim (replace_static_edge n child) [
    | none ↦ err internal
    | some n' ↦ ok n'
  ]

  -- The copies of mergeChild: the child's list where it is not empty.
  abbrev pub take_nodes : Nodes M → Nodes M → Nodes M
  take_nodes old nil = old
  take_nodes old (cons c cs) = cons c cs

  abbrev pub take_routes : List (Route M) → List (Route M) → List (Route M)
  take_routes old [] = old
  take_routes old (r ∷ rs) = r ∷ rs

  -- A node with no child is left as it is: the source reads statics[0], and its callers have one.
  unfoldable pub merge_child : Node M → Node M
  merge_child (node h rs nil ps ws) = node h rs nil ps ws
  merge_child (node h rs (cons child more) ps ws) =
      if h.label == 0
      then node h rs (cons child more) ps ws
      else if (if h.host then has_prefix (key child) (b'/' ∷ []) else false)
      then node h rs (cons child more) ps ws
      else node (record h { key = h.key ++ key child }) (take_routes rs (routes child))
          (statics child) (take_nodes ps (params child)) (take_nodes ws (wildcards child))
