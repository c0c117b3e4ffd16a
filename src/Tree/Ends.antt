-- ===== src/Tree/Ends.antt =====
-- tree.go: the insertion, the update and the deletion of a route in a transaction end.
use fox.Prelude.{
  ℕ, zero, suc, ◌+◌, ◌<◌, ◌≡◌, refl, ap, Bool, true, false, not, Option, none, some, List, [], ◌∷◌,
  length, drop, Bytes, arith, has_prefix, Bool-cases, Option-cases, List-cases, inl, inr,
  length-drop,
}
use fox.Route.{Token, Route, is_nil}
use fox.Node.{Node, key, routes, is_leaf, get_static_edge, get_param_edge, get_wildcard_edge}
use fox.Node.Content.{IsValid}
use fox.Node.Edges.Update.{get_static_edge-IsValid}
use fox.Tree.{InsertMode, ok, err}
use fox.Tree.Insert.{canonical_key, index_func, same_route}
use fox.Tree.Walk.Stuck.{is_stuck, bind-free, drop_name-free, HeadIs-pos}
use fox.Tree.Walk.Fuel.{cost, insert_tokens-free, param-IsValid, wildcard-IsValid, NodeType-cases}
use fox.Tree.Remove.{
  Removed, DeleteWalk, after_delete, drop_old, detach, delete_static, delete_param, delete_wildcard,
  delete_tokens,
}
use fox.Tree.Txn.{Txn, insert, inserted, delete}
use fox.Tree.Depth.{compute_path_depth-free}

module _ {M : Type 0} where
  inserted-free :
      (t : Txn M) (route : Route M) (mode : InsertMode) (p : Node M × Node M)
      → is_stuck (inserted t route mode p) ≡ false
  unfolding inserted
  inserted-free t route mode p =
      bind-free _ _ (compute_path_depth-free p.0 route.pattern.tokens) (λ depth. refl)

  after_delete-free :
      (at_root : Bool) (r : Removed M) (without : Node M) (replaced : Node M → Node M)
      → is_stuck r ≡ false
      → is_stuck (after_delete at_root r without replaced) ≡ false
  after_delete-free at_root (ok none) without replaced h = refl
  after_delete-free at_root (ok (some (c, old, names))) without replaced h = refl
  after_delete-free at_root (err e) without replaced h = h

  drop_old-free :
      (names : Node M) (old : Route M) → IsValid names → is_stuck (drop_old names old) ≡ false
  unfolding drop_old
  drop_old-free names old v = elim (Bool-cases (is_nil old.name)) [
    | inl e ↦ rw (drop_old, e) refl
    | inr e ↦ rw (drop_old, e) (drop_name-free names old v)
  ]

  -- A call that has fuel for tokens of a lower cost than `k`.
  abbrev Serves : DeleteWalk M → ℕ → Type 0
  Serves walk k =
      (at_root : Bool) (n : Node M) (tokens : List Token)
      → IsValid n
      → cost tokens < k
      → is_stuck (walk at_root n tokens) ≡ false

  delete_static-free :
      (walk : DeleteWalk M) (at_root : Bool) (n : Node M) (s : Bytes) (remaining : List Token)
      (k : ℕ)
      → Serves walk k
      → IsValid n
      → length s + cost remaining < k
      → is_stuck (delete_static walk at_root n s remaining) ≡ false
  unfolding delete_static
  delete_static-free walk at_root n [] remaining k h v l =
      h at_root n remaining v (omega (arith, l))
  delete_static-free walk at_root n (b ∷ s) remaining k h v l =
      elim (Option-cases (get_static_edge n b)) [
        | inl e ↦ rw (delete_static, e) refl
        | inr ((idx, child), e) ↦ elim (Bool-cases (has_prefix (b ∷ s) (key child))) [
          | inr g ↦ rw (delete_static, e, g) refl
          | inl g ↦
              let (a, w, _, _) = get_static_edge-IsValid n b idx child v e in
              let pos = HeadIs-pos b (key child) a in
              let cut = length-drop (length (key child)) (b ∷ s) in
              elim (List-cases (drop (length (key child)) (b ∷ s))) [
                | inl q ↦
                    rw (delete_static, e, g, q)
                      (after_delete-free at_root (walk false child remaining) _ _
                        (h false child remaining w (omega (arith, l))))
                | inr (x, xs, q) ↦
                    rw (delete_static, e, g, q)
                      (after_delete-free at_root (walk false child _) _ _
                        (h false child _ w (omega (arith, l, pos, cut, ap length q))))
              ]
        ]
      ]

  delete_param-free :
      (walk : DeleteWalk M) (at_root : Bool) (n : Node M) (o : Option Bytes)
      (remaining : List Token) (k : ℕ)
      → Serves walk k
      → IsValid n
      → cost remaining < k
      → is_stuck (delete_param walk at_root n o remaining) ≡ false
  unfolding delete_param
  delete_param-free walk at_root n none remaining k h v l = refl
  delete_param-free walk at_root n (some q) remaining k h v l =
      elim (Option-cases (get_param_edge n q)) [
        | inl e ↦ rw (delete_param, e) refl
        | inr ((idx, child), e) ↦
            rw (delete_param, e)
              (after_delete-free at_root (walk false child remaining) _ _
                (h false child remaining (param-IsValid n q idx child v e) l))
      ]

  delete_wildcard-free :
      (walk : DeleteWalk M) (at_root : Bool) (n : Node M) (o : Option Bytes)
      (remaining : List Token) (k : ℕ)
      → Serves walk k
      → IsValid n
      → cost remaining < k
      → is_stuck (delete_wildcard walk at_root n o remaining) ≡ false
  unfolding delete_wildcard
  delete_wildcard-free walk at_root n none remaining k h v l = refl
  delete_wildcard-free walk at_root n (some q) remaining k h v l =
      elim (Option-cases (get_wildcard_edge n q)) [
        | inl e ↦ rw (delete_wildcard, e) refl
        | inr ((idx, child), e) ↦
            rw (delete_wildcard, e)
              (after_delete-free at_root (walk false child remaining) _ _
                (h false child remaining (wildcard-IsValid n q idx child v e) l))
      ]

module _ {M : Type 0} (equal : M → M → Bool) where
  detach-free :
      (at_root : Bool) (n names : Node M) (route : Route M)
      → IsValid names
      → is_stuck (detach equal at_root n names route) ≡ false
  unfolding detach
  detach-free at_root n names route v = elim (Bool-cases (not (is_leaf n))) [
    | inl e ↦ rw (detach, e) refl
    | inr e ↦ elim (Option-cases (index_func (same_route equal route) (routes n))) [
      | inl f ↦ rw (detach, e, f) refl
      | inr ((idx, old), f) ↦
          rw (detach, e, f) (bind-free _ _ (drop_old-free names old v) (λ names'. refl))
    ]
  ]

  delete_tokens-free :
      (f : ℕ) (names : Node M) (route : Route M) (at_root : Bool) (n : Node M) (tokens : List Token)
      → IsValid names
      → IsValid n
      → cost tokens < f
      → is_stuck (delete_tokens equal f names route at_root n tokens) ≡ false
  unfolding delete_tokens
  delete_tokens-free zero names route at_root n tokens v u l = ground arith
  delete_tokens-free (suc f) names route at_root n [] v u l = detach-free at_root n names route v
  delete_tokens-free (suc f) names route at_root n (tk ∷ remaining) v u l =
      let serves : Serves (delete_tokens equal f names route) f =
        λ b m ts w c. delete_tokens-free f names route b m ts v w c in
      elim (NodeType-cases tk.typ) [
        | inl e ↦ rw e (delete_static-free _ at_root n tk.value remaining f serves u (omega arith))
        | inr (inl e) ↦
            rw e
              (delete_param-free _ at_root n (canonical_key tk) remaining f serves u (omega arith))
        | inr (inr e) ↦
            rw e (
              delete_wildcard-free _ at_root n (canonical_key tk) remaining f serves u
                (omega arith))
      ]

  -- On valid trees of routes and of names, the insertion or the update of a route in a transaction
  -- ends within its fuel, whatever the route: its walk down the tree, the change of the names, which
  -- for an update deletes the old one, and the depth of the path in the new tree; and so does the
  -- deletion of a route with that of its name.
  pub insert-free :
      (t : Txn M) (route : Route M) (mode : InsertMode)
      → IsValid t.names
      → IsValid t.patterns
      → (is_stuck (insert equal t route mode) ≡ false) × (is_stuck (delete equal t route) ≡ false)
  unfolding insert delete
  insert-free t route mode v u = (
    bind-free _ _
        (insert_tokens-free equal (suc (cost route.pattern.tokens)) t.names route mode none
          t.patterns route.pattern.tokens v u (omega arith))
        (λ p. inserted-free t route mode p),
    bind-free _ _
        (delete_tokens-free (suc (cost route.pattern.tokens)) t.names route true t.patterns
          route.pattern.tokens v u (omega arith))
        (λ found. refl),
  )
