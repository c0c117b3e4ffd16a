-- ===== src/Lookup/Accept.antt =====
-- route.go: whether a route takes a request, with the failed matchers of the lookup, and the first
-- route of a leaf that does.
pub mod Taken
use fox.Prelude.{
  ℕ, suc, Bool, true, false, ◌||◌, ◌&&◌, not, Option, none, some, List, [], ◌∷◌, if◌then◌else◌,
  Bytes, beq,
}
use fox.Route.{TrailingSlashOption, exact_slash, relaxed_slash, redirect_slash, Route}
use fox.Lookup.{Library, LookupState, matcher_failed, set_matcher_failed}

unfoldable pub has_string : List Bytes → Bytes → Bool
has_string [] method = false
has_string (m ∷ ms) method = beq m method || has_string ms method

-- The switch on the methods: an empty list is no constraint.
unfoldable pub has_method : List Bytes → Bytes → Bool
unfolding has_string
has_method [] method = true
has_method (m ∷ []) method = beq m method
has_method (m ∷ k ∷ ms) method = has_string (m ∷ k ∷ ms) method

abbrev pub is_exact_slash : TrailingSlashOption → Bool
is_exact_slash exact_slash = true
is_exact_slash relaxed_slash = false
is_exact_slash redirect_slash = false

module _ {M E : Type 0} (lib : Library M E) where
  unfoldable pub all_match : Route M → List M → Bool
  all_match r [] = true
  all_match r (m ∷ ms) = lib.match_with r m && all_match r ms

  unfoldable pub after_matchers : Route M → LookupState M E → Bool × LookupState M E
  unfolding all_match set_matcher_failed
  after_matchers r s =
      if all_match r r.matchers
      then (true, s)
      else (false, if r.nested then set_matcher_failed lib s r else s)

  unfoldable pub match_slow : Bytes → Route M → LookupState M E → Bool × LookupState M E
  unfolding has_method after_matchers matcher_failed
  match_slow method r s =
      if has_method r.methods method
      then (if r.nested && matcher_failed lib s r then (false, s) else after_matchers r s)
      else (false, s)

  unfoldable pub match : Bytes → Route M → LookupState M E → Bool × LookupState M E
  unfolding match_slow
  match method r s = if beq r.method_fast method then (true, s) else match_slow method r s

  -- `for i, route := range routes { if test(route) && route.match(method, c) { ... } }`
  unfoldable pub first_from :
      Bytes → (Route M → Bool) → ℕ → List (Route M) → LookupState M E → Option ℕ × LookupState M E
  unfolding match
  first_from method test i [] s = (none, s)
  first_from method test i (r ∷ rs) s = elim (test r) [
    | false ↦ first_from method test (suc i) rs s
    | true ↦
        let (taken, s') = match method r s in
        elim taken [ true ↦ (some i, s') | false ↦ first_from method test (suc i) rs s' ]
  ]

  unfoldable pub first_match :
      Bytes → (Route M → Bool) → List (Route M) → LookupState M E → Option ℕ × LookupState M E
  unfolding first_from
  first_match method test rs s = first_from method test 0 rs s
