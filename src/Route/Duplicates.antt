-- ===== src/Route/Duplicates.antt =====
-- hasDuplicateMatcher, for matchers whose Equal is equality.
use fox.Prelude.{
  ◌≡◌, ◌≢◌, ◌↔◌, refl, false, List, [], ◌∷◌, ◌++◌, inl, inr, arith, All, All-append, Bool-cases,
}
use fox.Slices.{Comparable}
use fox.Route.{any_equals, duplicate_from, has_duplicate_matcher}

module _ {M : Type 0} where
  -- No element of the list is `m`.
  abbrev pub Excludes : List M → M → Type 0
  Excludes ms m = All (λ b. b ≢ m) ms

  abbrev pub AreDistinct : List M → Type 0
  AreDistinct [] = Unit
  AreDistinct (m ∷ ms) = All (λ b. m ≢ b) ms × AreDistinct ms

  Excludes-parts :
      (before : List M) (m x : M) → Excludes (before ++ m ∷ []) x → Excludes before x × (m ≢ x)
  Excludes-parts [] m x h = (tt, h.0)
  Excludes-parts (b ∷ before) m x h = let (p, q) = Excludes-parts before m x h.1 in ((h.0, p), q)

  -- Each of `ms` is excluded by the list, and by its last element.
  Excludes-split :
      (before : List M) (m : M) (ms : List M)
      → All (Excludes (before ++ m ∷ [])) ms ↔ (All (Excludes before) ms × All (λ b. m ≢ b) ms)
  Excludes-split before m [] = (λ h. (tt, tt), λ h. tt)
  Excludes-split before m (x ∷ ms) =
      let (f, g) = Excludes-split before m ms in
      (
        λ h. let (a, b) = Excludes-parts before m x h.0 in let (p, q) = f h.1 in ((a, p), (b, q)),
        λ h. (All-append (λ b. b ≢ x) before (m ∷ []) h.0.0 (h.1.0, tt), g (h.0.1, h.1.1)),
      )

  All-Excludes_nil : (ms : List M) → All (Excludes []) ms
  All-Excludes_nil [] = tt
  All-Excludes_nil (m ∷ ms) = (tt, All-Excludes_nil ms)

module _ {M : Type 0} (c : Comparable M) where
  any_equals-Excludes : (ms : List M) (m : M) → (any_equals c.equal ms m ≡ false) ↔ Excludes ms m
  unfolding any_equals
  any_equals-Excludes [] m = (λ h. tt, λ h. refl)
  any_equals-Excludes (b ∷ ms) m = elim (Bool-cases (c.equal b m)) [
    | inl e ↦ rw (any_equals, e) (λ h. ground (arith, h), λ h. absurd (h.0 ((c.equal_iff b m).0 e)))
    | inr e ↦
        let (f, g) = any_equals-Excludes ms m in
        rw (any_equals, e) (λ h. (λ q. ground (arith, (c.equal_iff b m).1 q, e), f h), λ h. g h.1)
  ]

  duplicate_from-AreDistinct :
      (before ms : List M)
      → (duplicate_from c.equal before ms ≡ false) ↔ (All (Excludes before) ms × AreDistinct ms)
  unfolding duplicate_from
  duplicate_from-AreDistinct before [] = (λ h. (tt, tt), λ h. refl)
  duplicate_from-AreDistinct before (m ∷ ms) =
      let (f, g) = duplicate_from-AreDistinct (before ++ m ∷ []) ms in
      let (s, t) = Excludes-split before m ms in
      let (p, q) = any_equals-Excludes before m in
      elim (Bool-cases (any_equals c.equal before m)) [
        | inl e ↦ rw (duplicate_from, e) (λ h. ground (arith, h), λ h. ground (arith, q h.0.0, e))
        | inr e ↦
            rw (duplicate_from, e)
              (
                λ h. let (a, b) = f h in let (x, y) = s a in ((p e, x), (y, b)),
                λ h. g (t (h.0.1, h.1.0), h.1.1),
              )
      ]

  -- hasDuplicateMatcher answers false exactly on matchers of which no two are equal, for
  -- matchers whose Equal is equality.
  pub has_duplicate_matcher-AreDistinct :
      (ms : List M) → (has_duplicate_matcher c.equal ms ≡ false) ↔ AreDistinct ms
  unfolding has_duplicate_matcher
  has_duplicate_matcher-AreDistinct ms =
      let (f, g) = duplicate_from-AreDistinct [] ms in
      (λ h. (f h).1, λ h. g (All-Excludes_nil ms, h))
