-- ===== src/Tree/Txn.antt =====
-- tree.go: the transaction (tXn): insert, delete, truncate and computePathDepth. The counts of the
-- routes of each method are an association list. The cache of writable nodes and the flag `forked`,
-- which say what may be changed in place, stand for nothing over values.
use mathlib.Core.Option
use fox.Prelude.{
  ℕ, zero, suc, ◌+◌, ◌-◌, ◌%◌, Bool, true, false, Option, none, some, List, [], ◌∷◌, ◌==◌,
  if◌then◌else◌, length, drop, max, Bytes, beq, has_prefix,
}
use fox.Route.{static, param, wildcard, Token, Route}
use fox.Node.{
  Node, Nodes, node, nil, cons, key, params, wildcards, count, get_static_edge, get_param_edge,
  get_wildcard_edge,
}
use fox.Tree.{InsertMode, mode_insert, mode_update, Result, ok, err, ◌>>=◌, internal, out_of_fuel}
use fox.Tree.Insert.{canonical_key}
use fox.Tree.Walk.{insert_tokens}
use fox.Tree.Walk.Fuel.{cost}
use fox.Tree.Remove.{delete_tokens}

pub record Txn (M : Type 0) : Type 0 where
  pub patterns : Node M
  pub names : Node M
  pub methods : List (Bytes × ℕ)
  pub size : ℕ
  pub max_params : ℕ
  pub max_depth : ℕ

abbrev pub new_node : {M : Type 0} → Node M
new_node =
    node (record { label = 0; key = []; regexp = none; host = false; nested = false }) [] nil nil
      nil

-- t.methods[method]++ on a count of 64 bits; a missing key counts as 0.
unfoldable pub add_method : List (Bytes × ℕ) → Bytes → List (Bytes × ℕ)
add_method [] m = (m, 1) ∷ []
add_method ((k, n) ∷ ms) m =
    if beq k m then (k, (n + 1) % 18446744073709551616) ∷ ms else (k, n) ∷ add_method ms m

-- t.methods[method]--, and the key is deleted when its count is 0.
unfoldable pub sub_method : List (Bytes × ℕ) → Bytes → List (Bytes × ℕ)
sub_method [] m = (m, 18446744073709551615) ∷ []
sub_method ((k, n) ∷ ms) m =
    if beq k m
    then (let n' = (n + 18446744073709551615) % 18446744073709551616 in
        if n' == 0 then ms else (k, n') ∷ ms)
    else (k, n) ∷ sub_method ms m

abbrev pub add_methods : List (Bytes × ℕ) → List Bytes → List (Bytes × ℕ)
add_methods counts [] = counts
add_methods counts (m ∷ ms) = add_methods (add_method counts m) ms

abbrev pub sub_methods : List (Bytes × ℕ) → List Bytes → List (Bytes × ℕ)
sub_methods counts [] = counts
sub_methods counts (m ∷ ms) = sub_methods (sub_method counts m) ms

module _ {M : Type 0} where
  abbrev pub branches : Node M → ℕ
  branches n = if count (params n) == 0 then (if count (wildcards n) == 0 then 0 else 1) else 1

  -- The nodes of a tree.
  abbrev mutual
    pub node_count : Node M → ℕ
    node_count (node h rs st ps ws) = suc (nodes_count st + (nodes_count ps + nodes_count ws))

    pub nodes_count : Nodes M → ℕ
    nodes_count nil = 0
    nodes_count (cons c cs) = node_count c + nodes_count cs

  -- The inner loop of computePathDepth: the node behind `search` and the depth; `none` is a nil node.
  -- Each round goes down to a child, so the number of nodes is enough fuel on any tree.
  unfoldable pub descend_static : ℕ → Node M → Bytes → ℕ → Result M (Option (Node M) × ℕ)
  descend_static zero n search depth = err out_of_fuel
  descend_static (suc f) n [] depth = ok (some n, depth)
  descend_static (suc f) n (b ∷ s) depth = elim (get_static_edge n b) [
    | none ↦ ok (none, depth)
    | some (idx, child) ↦ elim (has_prefix (b ∷ s) (key child)) [
      | false ↦ ok (none, depth)
      | true ↦ descend_static f child (drop (length (key child)) (b ∷ s)) (depth + branches child)
    ]
  ]

  -- One round of the outer loop. The `none` of canonical_key is a panic.
  unfoldable pub descend : Node M → Token → ℕ → Result M (Option (Node M) × ℕ)
  unfolding descend_static canonical_key
  descend n tk depth = elim tk.typ [
    | static ↦ descend_static (node_count n) n tk.value depth
    | param ↦ elim (canonical_key tk) [
      | none ↦ err internal
      | some k ↦ ok (Option.map (λ p. p.1) (get_param_edge n k), depth)
    ]
    | wildcard ↦ elim (canonical_key tk) [
      | none ↦ err internal
      | some k ↦ ok (Option.map (λ p. p.1) (get_wildcard_edge n k), depth)
    ]
  ]

  unfoldable pub depth_from : Option (Node M) → List Token → ℕ → Result M ℕ
  unfolding descend
  depth_from none tokens depth = ok depth
  depth_from (some n) [] depth = ok depth
  depth_from (some n) (tk ∷ tokens) depth = descend n tk depth >>= λ p. depth_from p.0 tokens p.1

  unfoldable pub compute_path_depth : Node M → List Token → Result M ℕ
  unfolding depth_from
  compute_path_depth root tokens = depth_from (some root) tokens (branches root)

  unfoldable pub truncate : Txn M → Txn M
  truncate t = record {
    patterns = new_node;
    names = new_node;
    methods = [];
    size = 0;
    max_params = 0;
    max_depth = 0;
  }

  -- A successful insertion: the counters of the transaction.
  unfoldable pub counted : Txn M → Route M → InsertMode → Node M × Node M → ℕ → Txn M
  counted t route mode_insert (root, names) depth = record {
    patterns = root;
    names = names;
    methods = add_methods t.methods route.methods;
    size = suc t.size;
    max_params = max t.max_params (length route.params);
    max_depth = max t.max_depth depth;
  }
  counted t route mode_update (root, names) depth = record {
    patterns = root;
    names = names;
    methods = t.methods;
    size = t.size;
    max_params = max t.max_params (length route.params);
    max_depth = max t.max_depth depth;
  }

  unfoldable pub inserted : Txn M → Route M → InsertMode → Node M × Node M → Result M (Txn M)
  unfolding compute_path_depth counted
  inserted t route mode p =
      compute_path_depth p.0 route.pattern.tokens >>= λ depth. ok (counted t route mode p depth)

module _ {M : Type 0} (equal : M → M → Bool) where
  unfoldable pub insert : Txn M → Route M → InsertMode → Result M (Txn M)
  unfolding insert_tokens inserted
  insert t route mode =
      insert_tokens equal (suc (cost route.pattern.tokens)) t.names route mode none t.patterns
        route.pattern.tokens
      >>= λ p. inserted t route mode p

  -- `none` is (nil, false). The size is that of an int in the source, and at least one here, where a
  -- route is deleted.
  unfoldable pub delete : Txn M → Route M → Result M (Option (Txn M × Route M))
  unfolding delete_tokens
  delete t route =
      delete_tokens equal (suc (cost route.pattern.tokens)) t.names route true t.patterns
        route.pattern.tokens
      >>= λ found. ok (
          Option.map
            (λ r. (
              record {
                patterns = r.0;
                names = r.2;
                methods = sub_methods t.methods route.methods;
                size = t.size - 1;
                max_params = t.max_params;
                max_depth = t.max_depth;
              },
              r.1,
            ))
            found)
