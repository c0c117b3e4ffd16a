-- ===== src/Node.antt =====
-- node.go: the nodes of the routing tree, the order of the routes of a leaf, and the edges. Nodes
-- are values; a list of child nodes is `Nodes`. `prog` is compileProg of `regexp`, and not stored.
pub mod Order
pub mod Search
pub mod Content
pub mod Edges
use mathlib.Core.Option
use fox.Prelude.{
  ℕ, zero, suc, ◌+◌, ◌/◌, Bool, true, false, not, Option, none, some, List, [], ◌∷◌, ◌==◌,
  if◌then◌else◌, Bytes, ltb, leb, beq,
}
use fox.Route.{Route, is_nil}

pub record Head : Type 0 where
  pub label : ℕ
  pub key : Bytes
  pub regexp : Option Bytes
  pub host : Bool
  pub nested : Bool

mutual
  pub data Node (M : Type 0) : Type 0 where
    node : Head → List (Route M) → Nodes M → Nodes M → Nodes M → Node M

  pub data Nodes (M : Type 0) : Type 0 where
    nil : Nodes M
    cons : Node M → Nodes M → Nodes M

module _ {M : Type 0} where
  abbrev pub head : Node M → Head
  head (node h rs st ps ws) = h

  abbrev pub routes : Node M → List (Route M)
  routes (node h rs st ps ws) = rs

  abbrev pub statics : Node M → Nodes M
  statics (node h rs st ps ws) = st

  abbrev pub params : Node M → Nodes M
  params (node h rs st ps ws) = ps

  abbrev pub wildcards : Node M → Nodes M
  wildcards (node h rs st ps ws) = ws

  abbrev pub label : Node M → ℕ
  label n = (head n).label

  abbrev pub key : Node M → Bytes
  key n = (head n).key

  abbrev pub with_head : Node M → Head → Node M
  with_head (node _ rs st ps ws) h = node h rs st ps ws

  abbrev pub with_routes : Node M → List (Route M) → Node M
  with_routes (node h _ st ps ws) rs = node h rs st ps ws

  abbrev pub with_statics : Node M → Nodes M → Node M
  with_statics (node h rs _ ps ws) st = node h rs st ps ws

  abbrev pub with_params : Node M → Nodes M → Node M
  with_params (node h rs st _ ws) ps = node h rs st ps ws

  abbrev pub with_wildcards : Node M → Nodes M → Node M
  with_wildcards (node h rs st ps _) ws = node h rs st ps ws

  unfoldable pub is_leaf : Node M → Bool
  is_leaf n = not (is_nil (routes n))

  -- Go's operations on a slice of nodes.
  abbrev pub count : Nodes M → ℕ
  count nil = 0
  count (cons c cs) = suc (count cs)

  abbrev pub nth : Nodes M → ℕ → Option (Node M)
  nth nil i = none
  nth (cons c cs) zero = some c
  nth (cons c cs) (suc i) = nth cs i

  abbrev pub put : Nodes M → ℕ → Node M → Nodes M
  put nil i d = nil
  put (cons c cs) zero d = cons d cs
  put (cons c cs) (suc i) d = cons c (put cs i d)

  abbrev pub insert_at : Nodes M → ℕ → Node M → Nodes M
  insert_at cs zero d = cons d cs
  insert_at nil (suc i) d = cons d nil
  insert_at (cons c cs) (suc i) d = cons c (insert_at cs i d)

  abbrev pub delete_at : Nodes M → ℕ → Nodes M
  delete_at nil i = nil
  delete_at (cons c cs) zero = cs
  delete_at (cons c cs) (suc i) = cons c (delete_at cs i)

  abbrev pub push : Nodes M → Node M → Nodes M
  push nil d = cons d nil
  push (cons c cs) d = cons c (push cs d)

  -- The index and the child of the first node with this key: the loop of getParamEdge and
  -- getWildcardEdge, and of the IndexFunc calls.
  unfoldable pub find_key : Nodes M → Bytes → Option (ℕ × Node M)
  find_key nil k = none
  find_key (cons c cs) k =
      if beq (key c) k then some (0, c) else Option.map (λ p. (suc p.0, p.1)) (find_key cs k)

  -- The test that statics[i].label >= label.
  abbrev pub label_at_least : Nodes M → ℕ → ℕ → Bool
  label_at_least cs c i = elim (nth cs i) [ none ↦ true | some n ↦ leb c (label n) ]

-- The loop of sort.Search over [i, j): its fuel is the length of the range.
unfoldable pub search_between : ℕ → (ℕ → Bool) → ℕ → ℕ → ℕ
search_between zero f i j = i
search_between (suc fuel) f i j =
    if ltb i j
    then elim (f ((i + j) / 2)) [
      | false ↦ search_between fuel f ((i + j) / 2 + 1) j
      | true ↦ search_between fuel f i ((i + j) / 2)
    ]
    else i

-- sort.Search(n, f)
unfoldable pub search_first : ℕ → (ℕ → Bool) → ℕ
unfolding search_between
search_first n f = search_between n f 0 n

module _ {M : Type 0} where
  unfoldable pub label_index : Nodes M → ℕ → ℕ
  unfolding search_first
  label_index cs c = search_first (count cs) (label_at_least cs c)

  unfoldable pub get_static_edge : Node M → ℕ → Option (ℕ × Node M)
  unfolding label_index
  get_static_edge n c =
      let idx = label_index (statics n) c in
      elim (nth (statics n) idx) [
        | none ↦ none
        | some child ↦ if label child == c then some (idx, child) else none
      ]

  unfoldable pub add_static_edge : Node M → Node M → Node M
  unfolding label_index
  add_static_edge n child =
      with_statics n (insert_at (statics n) (label_index (statics n) (label child)) child)

  -- `none` is the panic "replacing missing edge".
  unfoldable pub replace_static_edge : Node M → Node M → Option (Node M)
  unfolding get_static_edge
  replace_static_edge n child =
      Option.map (λ p. with_statics n (put (statics n) p.0 child)) (get_static_edge n (label child))

  unfoldable pub del_static_edge : Node M → ℕ → Node M
  unfolding get_static_edge
  del_static_edge n c = elim (get_static_edge n c) [
    | none ↦ n
    | some (idx, child) ↦ with_statics n (delete_at (statics n) idx)
  ]

  -- The appended child swaps places with the node whose key is `catch`, if there is one before it.
  unfoldable pub push_before : Nodes M → Node M → Bytes → Nodes M
  unfolding find_key
  push_before cs child catch =
      if beq (key child) catch then push cs child else elim (find_key cs catch) [
        | none ↦ push cs child
        | some (idx, other) ↦ push (put cs idx child) other
      ]

  unfoldable pub add_param_edge : Node M → Node M → Node M
  unfolding push_before
  add_param_edge n child = with_params n (push_before (params n) child (b'?' ∷ []))

  unfoldable pub add_wildcard_edge : Node M → Node M → Node M
  unfolding push_before
  add_wildcard_edge n child = with_wildcards n (push_before (wildcards n) child (b'*' ∷ []))

  unfoldable pub get_param_edge : Node M → Bytes → Option (ℕ × Node M)
  unfolding find_key
  get_param_edge n k = find_key (params n) k

  unfoldable pub get_wildcard_edge : Node M → Bytes → Option (ℕ × Node M)
  unfolding find_key
  get_wildcard_edge n k = find_key (wildcards n) k

  unfoldable pub del_param_edge : Node M → Bytes → Node M
  unfolding find_key
  del_param_edge n k = elim (find_key (params n) k) [
    | none ↦ n
    | some (idx, child) ↦ with_params n (delete_at (params n) idx)
  ]

  unfoldable pub del_wildcard_edge : Node M → Bytes → Node M
  unfolding find_key
  del_wildcard_edge n k = elim (find_key (wildcards n) k) [
    | none ↦ n
    | some (idx, child) ↦ with_wildcards n (delete_at (wildcards n) idx)
  ]
