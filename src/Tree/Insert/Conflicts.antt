-- ===== src/Tree/Insert/Conflicts.antt =====
-- The insertion of a route at a node: when it succeeds.
use fox.Prelude.{
  ◌≡◌, ◌↔◌, refl, sym, subst, ◌∙◌, Bool, true, false, Option, [], ◌∷◌, All, Bool-cases, List-cases,
  inl, inr, ◌⊎◌, arith, Bytes, is_empty,
}
use fox.Slices.{Comparable}
use fox.Route.{Route}
use fox.Node.{Node, routes, wildcards}
use fox.Node.Content.{syms, IsValid, routes_at, UpdatedAt}
use fox.Node.Order.{add_route}
use fox.Tree.{Error, Result, ok, err, route_conflict, mode_insert}
use fox.Tree.Names.{insert_name}
use fox.Tree.Names.Insert.{Inserted, insert_name-Inserted}
use fox.Tree.Insert.{
  all_routes, leaf_conflicts, parent_conflicts, catch_all_conflicts, insert_named, attach,
}
use fox.Tree.Insert.Clashes.{
  NoneIs, cons-ne, parent_routes, IsSorted, Clash, Shadow, leaf_conflicts-nil, parent_conflicts-nil,
  catch_all_conflicts-nil,
}

empty_iff : (name : Bytes) → (is_empty name ≡ true) ↔ (name ≡ [])
empty_iff [] = (λ h. refl, λ h. refl)
empty_iff (x ∷ xs) = (λ h. absurd (ground (arith, h)), λ h. cc h)

module _ {M : Type 0} where
  Result-cases :
      {A : Type 0} (x : Result M A) → ((a : A) × (x ≡ ok a)) ⊎ ((e : Error M) × (x ≡ err e))
  Result-cases (ok a) = inl (a, refl)
  Result-cases (err e) = inr (e, refl)

  err-ok : {A : Type 0} {e : Error M} {a : A} → Path (Result M A) (err e) (ok a) → ⊥
  err-ok h = cc h

  ok-inj : {A : Type 0} {a b : A} → Path (Result M A) (ok a) (ok b) → a ≡ b
  ok-inj h = cc h

  -- No route has this name.
  abbrev pub IsFree : Node M → Bytes → Type 0
  IsFree names name = (name ≡ []) ⊎ (routes_at names (syms name) ≡ [])

  -- The tree of names has the route under its name, if it has one, and is otherwise the same.
  abbrev pub Named : Node M → Route M → Node M → Type 0
  Named names route names' =
      IsValid names'
      × (((route.name ≡ []) × (names' ≡ names))
          ⊎ UpdatedAt names names' (syms route.name) (route ∷ []))

  insert_named-ok :
      (names : Node M) (route : Route M)
      → IsValid names
      → (IsFree names route.name → (names' : Node M) × (insert_named names route ≡ ok names'))
        × ((names' : Node M)
            → insert_named names route ≡ ok names'
            → IsFree names route.name × Named names route names')
  unfolding insert_named
  insert_named-ok names route v = elim (Bool-cases (is_empty route.name)) [
    | inl e ↦
        let n = (empty_iff route.name).0 e in
        rw e (
          λ f. (names, refl),
          λ names' h.
              let q : names ≡ names' = ok-inj h in (inl n, (subst IsValid q v, inl (n, sym q))),
        )
    | inr e ↦ rw e (
        by_result (insert_name names route mode_insert)
          (insert_name-Inserted names route mode_insert v) e)
  ]
    where
      by_result :
          (x : Result M (Node M))
          → Inserted names (syms route.name) route mode_insert x
          → is_empty route.name ≡ false
          → (IsFree names route.name → (names' : Node M) × (x ≡ ok names'))
            × ((names' : Node M)
                → x ≡ ok names'
                → IsFree names route.name × Named names route names')
      by_result (ok n') (a, w, u, g) e = (
        λ f. (n', refl),
        λ names' h.
            let q : n' ≡ names' = ok-inj h in
            (
              inr (g refl),
              (
                subst IsValid q w,
                inr (subst (λ z. UpdatedAt names z (syms route.name) (route ∷ [])) q u),
              ),
            ),
      )
      by_result (err x) (_, r, rs, k, _) e = (
        λ f. elim f [
          | inl n ↦ absurd (ground (arith, e, (empty_iff route.name).1 n))
          | inr n ↦ absurd (cons-ne (sym k ∙ n))
        ],
        λ names' h. absurd (err-ok h),
      )

module _ {M : Type 0} (equal : M → M → Bool) where
  -- What attach answers, by the outcome of its tests and of the insertion of the name.
  attach-conflict :
      (p : Option (Node M)) (n names : Node M) (route : Route M)
      → ((e : Error M) × (attach equal p n names route ≡ err e))
        ⊎ ((names' : Node M) × (leaf_conflicts equal n route ≡ [])
            × (parent_conflicts equal p route ≡ [])
            × (catch_all_conflicts equal n route ≡ [])
            × (insert_named names route ≡ ok names')
            × (attach equal p n names route ≡ ok (add_route n route, names')))
  unfolding attach
  attach-conflict p n names route = elim (List-cases (leaf_conflicts equal n route)) [
    | inr (r, rs, e) ↦ inl (route_conflict route (r ∷ rs) false, rw (attach, e) refl)
    | inl e ↦ elim (List-cases (parent_conflicts equal p route)) [
      | inr (r, rs, f) ↦ inl (route_conflict route (r ∷ rs) true, rw (attach, e, f) refl)
      | inl f ↦ elim (List-cases (catch_all_conflicts equal n route)) [
        | inr (r, rs, g) ↦ inl (route_conflict route (r ∷ rs) true, rw (attach, e, f, g) refl)
        | inl g ↦ elim (Result-cases (insert_named names route)) [
          | inr (x, h) ↦ inl (x, rw (attach, e, f, g, h) refl)
          | inl (names', h) ↦ inr (names', e, f, g, h, rw (attach, e, f, g, h) refl)
        ]
      ]
    ]
  ]

  attach-free :
      (p : Option (Node M)) (n names names' : Node M) (route : Route M)
      → leaf_conflicts equal n route ≡ []
      → parent_conflicts equal p route ≡ []
      → catch_all_conflicts equal n route ≡ []
      → insert_named names route ≡ ok names'
      → attach equal p n names route ≡ ok (add_route n route, names')
  unfolding attach
  attach-free p n names names' route e f g h = rw (attach, e, f, g, h) refl

module _ {M : Type 0} (c : Comparable M) where
  -- On a valid tree of names, where the Equal of matchers is equality and the methods of the routes are
  -- sorted: a route is attached to a leaf, which then holds it at its rank, and the tree of names under
  -- its name, exactly if none of the leaf's routes has the same matchers
  -- and a method in common, or no method as it has none; none of the parent shadows it where it is an
  -- optional catch-all; it shadows none of the optional catch-alls below; and its name is free.
  pub attach-ok_iff :
      (p : Option (Node M)) (n names : Node M) (route : Route M)
      → IsValid names
      → IsSorted route
      → All IsSorted (routes n)
      → All IsSorted (parent_routes p route)
      → All IsSorted (all_routes (wildcards n))
      → ((x : Node M × Node M) × (attach c.equal p n names route ≡ ok x)
          × (x.0 ≡ add_route n route)
          × Named names route x.1)
        ↔ (NoneIs (Clash route) (routes n)
            × NoneIs (λ r. Shadow r route) (parent_routes p route)
            × NoneIs
                (λ r. (r.pattern.optional_catch_all ≡ true) × Shadow route r)
                (all_routes (wildcards n))
            × IsFree names route.name)
  attach-ok_iff p n names route v s a b d =
      let leaf = leaf_conflicts-nil c n route s a in
      let above = parent_conflicts-nil c p route s b in
      let below = catch_all_conflicts-nil c n route s d in
      let (free, held) = insert_named-ok names route v in
      (
        λ (x, k, _, _). elim (attach-conflict c.equal p n names route) [
          | inl (e, h) ↦ absurd (err-ok (sym h ∙ k))
          | inr (ns, e, f, g, h, i) ↦ (leaf.0 e, above.0 f, below.0 g, (held ns h).0)
        ],
        λ (e, f, g, h).
            let (ns, i) = free h in
            (
              (add_route n route, ns),
              attach-free c.equal p n names ns route (leaf.1 e) (above.1 f) (below.1 g) i,
              refl,
              (held ns i).1,
            ),
      )
