-- ===== src/Tree/Walk/Stuck.antt =====
-- Which steps of insertTokens can run out of fuel: none of those that change a node or the names.
use fox.Prelude.{
  ℕ, zero, suc, ◌<◌, ◌≡◌, refl, Bool, true, false, Option, List, [], ◌∷◌, Bool-cases, Option-cases,
  List-cases, inl, inr, beq, is_empty, Bytes, arith, length, length-drop, drop, has_prefix,
}
use fox.Route.{Route}
use fox.Node.{Node, key, routes, replace_static_edge, get_static_edge}
use fox.Node.Content.{Sym, syms, IsValid, HeadIs}
use fox.Node.Edges.Update.{get_static_edge-IsValid}
use fox.Tree.{
  InsertMode, mode_insert, mode_update, Result, ok, err, ◌>>=◌, route_not_found, name_conflict,
  route_conflict, internal, out_of_fuel, replace_edge,
}
use fox.Tree.Insert.{
  insert_named, or_internal, update_names, attach, update_at, index_func, same_route,
  leaf_conflicts, parent_conflicts, catch_all_conflicts, drop_name,
}
use fox.Tree.Names.{insert_name, delete_name_in, delete_name}
use fox.Tree.Names.Insert.{Inserted, insert_name-Inserted}
use fox.Tree.Walk.{then_node, only_insert}

pub HeadIs-pos : (b : ℕ) (k : Bytes) → HeadIs b k → 0 < length k
HeadIs-pos b [] h = absurd h
HeadIs-pos b (x ∷ k) h = omega arith

module _ {M : Type 0} where
  abbrev pub is_stuck : {A : Type 0} → Result M A → Bool
  is_stuck (err out_of_fuel) = true
  is_stuck (err (route_not_found r)) = false
  is_stuck (err (name_conflict r s)) = false
  is_stuck (err (route_conflict r rs b)) = false
  is_stuck (err internal) = false
  is_stuck (ok x) = false

  pub bind-free :
      {A B : Type 0} (x : Result M A) (f : A → Result M B)
      → is_stuck x ≡ false
      → ((a : A) → is_stuck (f a) ≡ false)
      → is_stuck (x >>= f) ≡ false
  bind-free (ok a) f h k = k a
  bind-free (err out_of_fuel) f h k = h
  bind-free (err (route_not_found r)) f h k = refl
  bind-free (err (name_conflict r s)) f h k = refl
  bind-free (err (route_conflict r rs b)) f h k = refl
  bind-free (err internal) f h k = refl

  pub then_node-free :
      (x : Result M (Node M × Node M)) (f : Node M → Result M (Node M))
      → is_stuck x ≡ false
      → ((a : Node M) → is_stuck (f a) ≡ false)
      → is_stuck (then_node x f) ≡ false
  then_node-free x f h k = bind-free x _ h (λ p. bind-free (f p.0) _ (k p.0) (λ n. refl))

  pub only_insert-free :
      (mode : InsertMode) (route : Route M) (x : Result M (Node M × Node M))
      → is_stuck x ≡ false
      → is_stuck (only_insert mode route x) ≡ false
  only_insert-free mode_update route x h = refl
  only_insert-free mode_insert route x h = h

  pub replace_edge-free : (n c : Node M) → is_stuck (replace_edge n c) ≡ false
  unfolding replace_edge
  replace_edge-free n c = elim (Option-cases (replace_static_edge n c)) [
    | inl e ↦ rw (replace_edge, e) refl
    | inr (m, e) ↦ rw (replace_edge, e) refl
  ]

  Inserted-free :
      (n : Node M) (p : List Sym) (route : Route M) (mode : InsertMode) (r : Result M (Node M))
      → Inserted n p route mode r
      → is_stuck r ≡ false
  Inserted-free n p route mode (ok x) h = refl
  Inserted-free n p route mode (err e) (_, r, rs, _, q) = rw q refl

  insert_name-free :
      (names : Node M) (route : Route M) (mode : InsertMode)
      → IsValid names
      → is_stuck (insert_name names route mode) ≡ false
  insert_name-free names route mode v =
      Inserted-free names (syms route.name) route mode _ (insert_name-Inserted names route mode v)

  or_internal-free : (r : Result M (Node M)) → is_stuck (or_internal r) ≡ false
  or_internal-free (ok x) = refl
  or_internal-free (err e) = refl

  pub insert_named-free :
      (names : Node M) (route : Route M)
      → IsValid names
      → is_stuck (insert_named names route) ≡ false
  unfolding insert_named
  insert_named-free names route v = elim (Bool-cases (is_empty route.name)) [
    | inl e ↦ rw (insert_named, e) refl
    | inr e ↦ rw (insert_named, e) (insert_name-free names route mode_insert v)
  ]

  -- Each call of deleteNameIn goes on behind the key of a child, which is not empty.
  delete_name_in-free :
      (f : ℕ) (at_root : Bool) (n : Node M) (s : Bytes)
      → IsValid n
      → length s < f
      → is_stuck (delete_name_in f at_root n s) ≡ false
  unfolding delete_name_in
  delete_name_in-free zero at_root n s v l = ground arith
  delete_name_in-free (suc f) at_root n [] v l = refl
  delete_name_in-free (suc f) at_root n (b ∷ s) v l = elim (Option-cases (get_static_edge n b)) [
    | inl e ↦ rw (delete_name_in, e) refl
    | inr ((idx, child), e) ↦ elim (Bool-cases (has_prefix (b ∷ s) (key child))) [
      | inr g ↦ rw (delete_name_in, e, g) refl
      | inl g ↦
          let (a, w, _, _) = get_static_edge-IsValid n b idx child v e in
          let cut = length-drop (length (key child)) (b ∷ s) in
          rw (delete_name_in, e, g)
            (bind-free _ _
              (delete_name_in-free f false child (drop (length (key child)) (b ∷ s)) w
                (omega (arith, cut, HeadIs-pos b (key child) a, l)))
              (λ c. refl))
    ]
  ]

  pub drop_name-free :
      (names : Node M) (old : Route M) → IsValid names → is_stuck (drop_name names old) ≡ false
  unfolding drop_name delete_name
  drop_name-free names old v =
      bind-free _ _
        (delete_name_in-free (suc (length old.name)) true names old.name v (omega arith))
        (λ c. refl)

  -- What follows an insertion of a name may rely on a valid tree.
  Inserted-bind :
      (n : Node M) (p : List Sym) (route : Route M) (mode : InsertMode) (r : Result M (Node M))
      (g : Node M → Result M (Node M))
      → Inserted n p route mode r
      → ((a : Node M) → IsValid a → is_stuck (g a) ≡ false)
      → is_stuck (r >>= g) ≡ false
  Inserted-bind n p route mode (ok x) g h k = k x h.1
  Inserted-bind n p route mode (err e) g (_, r, rs, _, q) k = rw q refl

  update_names-free :
      (names : Node M) (old route : Route M)
      → IsValid names
      → is_stuck (update_names names old route) ≡ false
  unfolding update_names
  update_names-free names old route v = elim (Bool-cases (is_empty old.name)) [
    | inl e ↦ rw (update_names, e) (insert_named-free names route v)
    | inr e ↦ elim (Bool-cases (is_empty route.name)) [
      | inl f ↦ rw (update_names, e, f) (drop_name-free names old v)
      | inr f ↦ elim (Bool-cases (beq old.name route.name)) [
        | inl g ↦ rw (update_names, e, f, g) (or_internal-free _)
        | inr g ↦
            rw (update_names, e, f, g)
              (Inserted-bind names (syms route.name) route mode_insert _
                (λ names'. drop_name names' old) (insert_name-Inserted names route mode_insert v)
                (λ names' w. drop_name-free names' old w))
      ]
    ]
  ]

  pub attach-unstuck :
      (equal : M → M → Bool) (p : Option (Node M)) (n names : Node M) (route : Route M)
      → IsValid names
      → is_stuck (attach equal p n names route) ≡ false
  unfolding attach
  attach-unstuck equal p n names route v = elim (List-cases (leaf_conflicts equal n route)) [
    | inr (r, rs, e) ↦ rw (attach, e) refl
    | inl e ↦ elim (List-cases (parent_conflicts equal p route)) [
      | inr (r, rs, f) ↦ rw (attach, e, f) refl
      | inl f ↦ elim (List-cases (catch_all_conflicts equal n route)) [
        | inr (r, rs, g) ↦ rw (attach, e, f, g) refl
        | inl g ↦ rw (attach, e, f, g) (bind-free _ _ (insert_named-free names route v) (λ a. refl))
      ]
    ]
  ]

  pub update_at-free :
      (equal : M → M → Bool) (n names : Node M) (route : Route M)
      → IsValid names
      → is_stuck (update_at equal n names route) ≡ false
  unfolding update_at
  update_at-free equal n names route v =
      elim (Option-cases (index_func (same_route equal route) (routes n))) [
        | inl e ↦ rw (update_at, e) refl
        | inr ((idx, old), e) ↦
            rw (update_at, e) (bind-free _ _ (update_names-free names old route v) (λ a. refl))
      ]
