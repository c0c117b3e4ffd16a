-- ===== src/Tree/Depth.antt =====
-- tree.go: computePathDepth ends on any tree, as each round goes down to a child.
use fox.Prelude.{
  ℕ, zero, suc, ◌+◌, ◌≤◌, ◌<◌, ◌≡◌, refl, ap, false, Option, none, some, List, [], ◌∷◌, drop, Bytes,
  arith, has_prefix, Bool-cases, Option-cases, inl, inr, length,
}
use fox.Route.{Token}
use fox.Node.{Node, Nodes, node, nil, cons, key, nth, get_static_edge, label_index}
use fox.Tree.Insert.{canonical_key}
use fox.Tree.Walk.Stuck.{is_stuck, bind-free}
use fox.Tree.Walk.Fuel.{NodeType-cases}
use fox.Tree.Txn.{
  node_count, nodes_count, branches, descend_static, descend, depth_from, compute_path_depth,
}

module _ {M : Type 0} where
  nth-count :
      (cs : Nodes M) (i : ℕ) (c : Node M) → nth cs i ≡ some c → node_count c ≤ nodes_count cs
  nth-count nil i c h = ground (arith, h)
  nth-count (cons d cs) zero c h =
      let q : d ≡ c = ground (arith, h) in omega (arith, ap node_count q)
  nth-count (cons d cs) (suc i) c h = omega (arith, nth-count cs i c h)

  child-count :
      (n : Node M) (b i : ℕ) (c : Node M)
      → get_static_edge n b ≡ some (i, c)
      → node_count c < node_count n
  unfolding get_static_edge
  child-count (node h rs st ps ws) b i c e = elim (Option-cases (nth st (label_index st b))) [
    | inl f ↦ absurd (ground (arith, e, f))
    | inr (d, f) ↦
        let q : d ≡ c = ground (arith, e, f) in
        omega (arith, nth-count st (label_index st b) d f, ap node_count q)
  ]

  descend_static-free :
      (f : ℕ) (n : Node M) (s : Bytes) (depth : ℕ)
      → node_count n ≤ f
      → is_stuck (descend_static f n s depth) ≡ false
  unfolding descend_static
  descend_static-free zero (node h rs st ps ws) s depth l = absurd (omega (arith, l))
  descend_static-free (suc f) n [] depth l = refl
  descend_static-free (suc f) n (b ∷ s) depth l = elim (Option-cases (get_static_edge n b)) [
    | inl e ↦ rw (descend_static, e) refl
    | inr ((i, c), e) ↦ elim (Bool-cases (has_prefix (b ∷ s) (key c))) [
      | inr g ↦ rw (descend_static, e, g) refl
      | inl g ↦
          rw (descend_static, e, g)
            (descend_static-free f c (drop (length (key c)) (b ∷ s)) (depth + branches c)
              (omega (arith, child-count n b i c e, l)))
    ]
  ]

  descend-free : (n : Node M) (tk : Token) (depth : ℕ) → is_stuck (descend n tk depth) ≡ false
  unfolding descend
  descend-free n tk depth = elim (NodeType-cases tk.typ) [
    | inl e ↦ rw (descend, e) (descend_static-free (node_count n) n tk.value depth (omega arith))
    | inr (inl e) ↦ elim (Option-cases (canonical_key tk)) [
      | inl g ↦ rw (descend, e, g) refl
      | inr (k, g) ↦ rw (descend, e, g) refl
    ]
    | inr (inr e) ↦ elim (Option-cases (canonical_key tk)) [
      | inl g ↦ rw (descend, e, g) refl
      | inr (k, g) ↦ rw (descend, e, g) refl
    ]
  ]

  depth_from-free :
      (o : Option (Node M)) (tokens : List Token) (depth : ℕ)
      → is_stuck (depth_from o tokens depth) ≡ false
  unfolding depth_from
  depth_from-free none tokens depth = refl
  depth_from-free (some n) [] depth = refl
  depth_from-free (some n) (tk ∷ tokens) depth =
      bind-free (descend n tk depth) _ (descend-free n tk depth)
        (λ p. depth_from-free p.0 tokens p.1)

  pub compute_path_depth-free :
      (root : Node M) (tokens : List Token) → is_stuck (compute_path_depth root tokens) ≡ false
  unfolding compute_path_depth
  compute_path_depth-free root tokens = depth_from-free (some root) tokens (branches root)
