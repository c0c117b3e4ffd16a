-- ===== src/Lookup/Accept/Taken.antt =====
-- A route that is picked takes the request: what the lookup remembers only keeps routes out.
use fox.Prelude.{
  ℕ, suc, ◌+◌, ◌≡◌, inl, inr, refl, Bool, true, Option, none, some, List, [], ◌∷◌, arith, Bytes,
  beq, beq_iff, Bool-cases, get_elem?,
}
use fox.Route.{Route}
use fox.Lookup.{Library, LookupState}
use fox.Lookup.Accept.{
  has_method, all_match, after_matchers, match_slow, match, first_from, first_match,
}
use fox.Lookup.Trail.{Takes}

module _ {M E : Type 0} (lib : Library M E) (method : Bytes) where
  match_slow-Takes :
      (r : Route M) (s : LookupState M E)
      → (match_slow lib method r s).0 ≡ true
      → (has_method r.methods method ≡ true) × (all_match lib r r.matchers ≡ true)
  unfolding match_slow after_matchers
  match_slow-Takes r s h = ground arith

  match-Takes :
      (r : Route M) (s : LookupState M E) → (match lib method r s).0 ≡ true → Takes lib method r
  unfolding match
  match-Takes r s h = elim (Bool-cases (beq r.method_fast method)) [
    | inl e ↦ inl ((beq_iff r.method_fast method).0 e)
    | inr e ↦ inr (match_slow-Takes r s (rw e at h))
  ]

  -- The route of the index passes the test and takes the request.
  abbrev pub IsTaken : (Route M → Bool) → List (Route M) → ℕ → Type 0
  IsTaken test rs i =
      (r : Route M) × (get_elem? rs i ≡ some r) × (test r ≡ true) × Takes lib method r

  abbrev pub IfTaken : (Route M → Bool) → List (Route M) → ℕ → Option ℕ × LookupState M E → Type 0
  IfTaken test rs k (none, s) = Unit
  IfTaken test rs k (some i, s) = (j : ℕ) × (i ≡ k + j) × IsTaken test rs j

  IfTaken-cons :
      (test : Route M → Bool) (r : Route M) (rs : List (Route M)) (k : ℕ)
      (p : Option ℕ × LookupState M E)
      → IfTaken test rs (suc k) p
      → IfTaken test (r ∷ rs) k p
  IfTaken-cons test r rs k (none, s) h = tt
  IfTaken-cons test r rs k (some i, s) (j, e, t) = (suc j, omega (arith, e), t)

  first_from-IfTaken :
      (test : Route M → Bool) (k : ℕ) (rs : List (Route M)) (s : LookupState M E)
      → IfTaken test rs k (first_from lib method test k rs s)
  unfolding first_from
  first_from-IfTaken test k [] s = tt
  first_from-IfTaken test k (r ∷ rs) s = elim (Bool-cases (test r)) [
    | inr e ↦
        rw (first_from, e)
          (IfTaken-cons test r rs k (first_from lib method test (suc k) rs s)
            (first_from-IfTaken test (suc k) rs s))
    | inl e ↦ elim (Bool-cases (match lib method r s).0) [
      | inl t ↦ rw (first_from, e, t) (0, omega arith, (r, refl, e, match-Takes r s t))
      | inr t ↦
          rw (first_from, e, t)
            (IfTaken-cons test r rs k
              (first_from lib method test (suc k) rs (match lib method r s).1)
              (first_from-IfTaken test (suc k) rs (match lib method r s).1))
    ]
  ]

  IfTaken-zero :
      (test : Route M → Bool) (rs : List (Route M)) (p : Option ℕ × LookupState M E)
      → IfTaken test rs 0 p
      → (i : ℕ) → p.0 ≡ some i
      → IsTaken test rs i
  IfTaken-zero test rs (none, s) h i e = ground arith
  IfTaken-zero test rs (some j, s) (k, q, t) i e =
      let l : k ≡ i = ground (arith, q, e) in rw (← l) t

  pub first_match-IsTaken :
      (test : Route M → Bool) (rs : List (Route M)) (s : LookupState M E) (i : ℕ)
      → (first_match lib method test rs s).0 ≡ some i
      → IsTaken test rs i
  unfolding first_match
  first_match-IsTaken test rs s i e =
      IfTaken-zero test rs (first_from lib method test 0 rs s) (first_from-IfTaken test 0 rs s) i e
