-- ===== src/Node/Order/Ranked.antt =====
-- The routes of a leaf stay in the order in which they are tried.
use fox.Prelude.{
  ℕ, ◌+◌, ◌<◌, ◌≤◌, ◌≡◌, ◌⊎◌, ◌↔◌, refl, sym, ap, true, false, ◌&&◌, List, [], ◌∷◌, ◌++◌,
  if◌then◌else◌, inl, inr, arith, All, All-append, Bool-cases, append-nil,
}
use fox.Route.{Route, is_nil}
use fox.Node.{Node, node, routes}
use fox.Node.Order.{insert_at, before, find_insert_position, add_route}

module _ {M : Type 0} where
  -- Routes with methods come first, and among equals in that those with matchers.
  abbrev pub class : Route M → ℕ
  class r = (if is_nil r.methods then 0 else 2) + (if is_nil r.matchers then 0 else 1)

  -- Only routes with matchers have a priority.
  abbrev pub weight : Route M → ℕ
  weight r = if is_nil r.matchers then 0 else r.priority

  -- `a` may be tried before `b`: it has the higher class, or the same one and no lower priority.
  abbrev pub MayPrecede : Route M → Route M → Type 0
  MayPrecede a b = (class b < class a) ⊎ ((class a ≡ class b) × (weight b ≤ weight a))

  -- Each route may be tried before those that stand behind it.
  abbrev pub Ranked : List (Route M) → Type 0
  Ranked [] = Unit
  Ranked (r ∷ rs) = All (MayPrecede r) rs × Ranked rs

  -- The test of findInsertPosition.
  before_iff : (a b : Route M) → (before a b ≡ true) ↔ ¬ MayPrecede b a
  unfolding before
  before_iff a b = ((λ h k. absurd (ground arith)), λ h. ground arith)

  not_before : (a b : Route M) → before a b ≡ false → MayPrecede b a
  unfolding before
  not_before a b h = ground arith

  MayPrecede-trans : (a b c : Route M) → MayPrecede a b → MayPrecede b c → MayPrecede a c
  MayPrecede-trans a b c (inl h) (inl k) = inl (omega arith)
  MayPrecede-trans a b c (inl h) (inr (k, l)) = inl (omega arith)
  MayPrecede-trans a b c (inr (h, m)) (inl k) = inl (omega arith)
  MayPrecede-trans a b c (inr (h, m)) (inr (k, l)) = inr (omega arith, omega arith)

  MayPrecede-total : (a b : Route M) → ¬ MayPrecede b a → MayPrecede a b
  MayPrecede-total a b h = ground arith

  -- A route without methods and matchers precedes none.
  MayPrecede-last :
      (r e : Route M) → is_nil r.methods ≡ true → is_nil r.matchers ≡ true → MayPrecede e r
  MayPrecede-last r e h g = ground arith

  All-insert :
      (pre post : List (Route M)) (e r : Route M)
      → MayPrecede e r
      → All (MayPrecede e) (pre ++ post)
      → All (MayPrecede e) (pre ++ r ∷ post)
  All-insert [] post e r h k = (h, k)
  All-insert (p ∷ pre) post e r h (k, ks) = (k, All-insert pre post e r h ks)

  All-trans :
      (r e : Route M) (rs : List (Route M))
      → MayPrecede r e
      → All (MayPrecede e) rs
      → All (MayPrecede r) rs
  All-trans r e [] h k = tt
  All-trans r e (s ∷ rs) h (k, ks) = (MayPrecede-trans r e s h k, All-trans r e rs h ks)

  -- What may not precede `r` has behind it what may not either.
  All-not :
      (r e : Route M) (rs : List (Route M))
      → ¬ MayPrecede e r
      → All (MayPrecede e) rs
      → All (λ s. ¬ MayPrecede s r) rs
  All-not r e [] h k = tt
  All-not r e (s ∷ rs) h (k, ks) = (λ l. h (MayPrecede-trans e s r k l), All-not r e rs h ks)

  -- The position splits the list: what stands before may precede `r`, and what stands behind may not.
  pub insert-Ranked :
      (rs : List (Route M)) (r : Route M)
      → Ranked rs
      → (pre post : List (Route M)) × (rs ≡ pre ++ post)
        × (insert_at rs (find_insert_position rs r) r ≡ pre ++ r ∷ post)
        × All (λ s. MayPrecede s r) pre
        × All (λ s. ¬ MayPrecede s r) post
        × Ranked (pre ++ r ∷ post)
  unfolding find_insert_position
  insert-Ranked [] r k = ([], [], refl, refl, tt, tt, (tt, tt))
  insert-Ranked (e ∷ rs) r (k, ks) = elim (Bool-cases (before r e)) [
    | inl h ↦
        let n = (before_iff r e).0 h in
        let l = MayPrecede-total r e n in
        (
          [],
          e ∷ rs,
          refl,
          rw h refl,
          tt,
          (n, All-not r e rs n k),
          ((l, All-trans r e rs l k), (k, ks)),
        )
    | inr h ↦
        let (pre, post, s, t, p, o, q) = insert-Ranked rs r ks in
        let l = not_before r e h in
        (
          e ∷ pre,
          post,
          ap (λ l. e ∷ l) s,
          rw h (ap (λ l. e ∷ l) t),
          (l, p),
          o,
          (All-insert pre post e r l (rw s at k), q),
        )
  ]

  append-Ranked :
      (rs : List (Route M)) (r : Route M)
      → is_nil r.methods ≡ true
      → is_nil r.matchers ≡ true
      → Ranked rs
      → All (λ s. MayPrecede s r) rs × Ranked (rs ++ r ∷ [])
  append-Ranked [] r h g k = (tt, (tt, tt))
  append-Ranked (e ∷ rs) r h g (k, ks) =
      let (a, b) = append-Ranked rs r h g ks in
      let l = MayPrecede-last r e h g in
      ((l, a), (All-append (MayPrecede e) rs (r ∷ []) k (l, tt), b))

  -- On a leaf in order, addRoute puts the new route in one place and moves no other: before it are
  -- the routes that may be tried before it, which have a higher class, or the same class and no lower
  -- priority, and behind it those that may not; and the routes stay in order.
  pub add_route-Ranked :
      (n : Node M) (r : Route M)
      → Ranked (routes n)
      → (pre post : List (Route M)) × (routes n ≡ pre ++ post)
        × (routes (add_route n r) ≡ pre ++ r ∷ post)
        × All (λ s. MayPrecede s r) pre
        × All (λ s. ¬ MayPrecede s r) post
        × Ranked (routes (add_route n r))
  unfolding add_route
  add_route-Ranked (node h rs st ps ws) r k =
      elim (Bool-cases (is_nil r.methods && is_nil r.matchers)) [
        | inl e ↦
            let (a, b) = append-Ranked rs r (ground arith) (ground arith) k in
            (rs, [], sym (append-nil rs), rw e refl, a, tt, rw e b)
        | inr e ↦
            let (pre, post, s, t, p, o, q) = insert-Ranked rs r k in
            (pre, post, s, rw e t, p, o, rw (e, t) q)
      ]
