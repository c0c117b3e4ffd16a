-- ===== src/Node/Order/Replaced.antt =====
-- replaceRoute keeps the order of the routes of a leaf.
use mathlib.Core.List.{Perm, perm_middle}
use fox.Prelude.{
  ℕ, zero, suc, ◌≡◌, refl, sym, ap, ◌∙◌, true, some, List, [], ◌∷◌, ◌++◌, ◌==◌, if◌then◌else◌, inl,
  inr, arith, All, get_elem?, Bool-cases,
}
use fox.Route.{Route, is_nil}
use fox.Node.{Node, node, routes}
use fox.Node.Order.{delete_at, set, replace_route}
use fox.Node.Order.Ranked.{class, weight, MayPrecede, Ranked, insert-Ranked}

-- The list around index `i`.
split_at {ℓ} :
    {A : Type ℓ} (xs : List A) (i : ℕ) (x y : A)
    → get_elem? xs i ≡ some x
    → (pre post : List A) × (xs ≡ pre ++ x ∷ post)
      × (delete_at xs i ≡ pre ++ post)
      × (set xs i y ≡ pre ++ y ∷ post)
split_at [] i x y h = ground arith
split_at (z ∷ xs) zero x y h = ([], xs, ground arith, refl, refl)
split_at (z ∷ xs) (suc i) x y h =
    let (pre, post, a, b, c) = split_at xs i x y h in
    (z ∷ pre, post, ap (λ l. z ∷ l) a, ap (λ l. z ∷ l) b, ap (λ l. z ∷ l) c)

module _ {M : Type 0} where
  All-remove {κ} :
      (P : Route M → Type κ) (pre post : List (Route M)) (x : Route M)
      → All P (pre ++ x ∷ post)
      → P x × All P (pre ++ post)
  All-remove P [] post x h = h
  All-remove P (p ∷ pre) post x (h, hs) = let (a, b) = All-remove P pre post x hs in (a, (h, b))

  delete-Ranked :
      (pre post : List (Route M)) (x : Route M) → Ranked (pre ++ x ∷ post) → Ranked (pre ++ post)
  delete-Ranked [] post x k = k.1
  delete-Ranked (p ∷ pre) post x (k, ks) =
      ((All-remove (MayPrecede p) pre post x k).1, delete-Ranked pre post x ks)

  -- Two routes that no third one can tell apart in the order.
  abbrev SameRank : Route M → Route M → Type 0
  SameRank a b = (class a ≡ class b) × (weight a ≡ weight b)

  same_rank :
      (a b : Route M)
      → is_nil a.methods ≡ is_nil b.methods
      → is_nil a.matchers ≡ is_nil b.matchers
      → (if a.priority == b.priority then true else is_nil b.matchers) ≡ true
      → SameRank a b
  same_rank a b h g k = (ground arith, ground arith)

  All-rank :
      (a b : Route M) (rs : List (Route M))
      → SameRank a b
      → All (MayPrecede a) rs
      → All (MayPrecede b) rs
  All-rank a b [] e k = tt
  All-rank a b (s ∷ rs) (e, f) (inl k, ks) = (inl (omega arith), All-rank a b rs (e, f) ks)
  All-rank a b (s ∷ rs) (e, f) (inr (k, l), ks) =
      (inr (omega arith, omega arith), All-rank a b rs (e, f) ks)

  All-swap :
      (a b p : Route M) (pre post : List (Route M))
      → SameRank a b
      → All (MayPrecede p) (pre ++ a ∷ post)
      → All (MayPrecede p) (pre ++ b ∷ post)
  All-swap a b p [] post (e, f) (inl k, ks) = (inl (omega arith), ks)
  All-swap a b p [] post (e, f) (inr (k, l), ks) = (inr (omega arith, omega arith), ks)
  All-swap a b p (q ∷ pre) post e (k, ks) = (k, All-swap a b p pre post e ks)

  set-Ranked :
      (a b : Route M) (pre post : List (Route M))
      → SameRank a b
      → Ranked (pre ++ a ∷ post)
      → Ranked (pre ++ b ∷ post)
  set-Ranked a b [] post e (k, ks) = (All-rank a b post e k, ks)
  set-Ranked a b (p ∷ pre) post e (k, ks) =
      (All-swap a b p pre post e k, set-Ranked a b pre post e ks)

  -- On a leaf in order, with a new route that has methods just if the old one has, and matchers just
  -- if the old one has: replaceRoute exchanges the two, whatever the new priority, keeps the others,
  -- and the routes stay in order.
  pub replace_route-Ranked :
      (n : Node M) (idx : ℕ) (old r : Route M)
      → get_elem? (routes n) idx ≡ some old
      → is_nil old.methods ≡ is_nil r.methods
      → is_nil old.matchers ≡ is_nil r.matchers
      → Ranked (routes n)
      → (rest : List (Route M)) × Perm (routes n) (old ∷ rest)
        × Perm (routes (replace_route n idx r)) (r ∷ rest)
        × Ranked (routes (replace_route n idx r))
  unfolding replace_route
  replace_route-Ranked (node h rs st ps ws) idx old r e m g k =
      let (pre, post, a, b, c) = split_at rs idx old r e in
      let kept = rw a at k in
      let first = rw (← a) at (perm_middle {a = old} pre post) in
      elim (Bool-cases (if old.priority == r.priority then true else is_nil r.matchers)) [
        | inl t ↦ (
          pre ++ post,
          first,
          rw (replace_route, e, t, c) (perm_middle pre post),
          rw (replace_route, e, t, c) (set-Ranked old r pre post (same_rank old r m g t) kept),
        )
        | inr t ↦
            let (fore, aft, s, u, p, o, q) =
              insert-Ranked (delete_at rs idx) r (rw b (delete-Ranked pre post old kept)) in
            (
              pre ++ post,
              first,
              rw (replace_route, e, t, u) (rw (sym b ∙ s) (perm_middle fore aft)),
              rw (replace_route, e, t, u) q,
            )
      ]
