-- ===== src/Lookup/Goes/Leaf.antt =====
-- lookupByPath: the routes of a leaf, and of the wildcards that take an empty capture, as answers.
use fox.Prelude.{
  ℕ, ◌≡◌, inl, inr, Bool, true, false, Option, none, some, List, [], ◌∷◌, ◌++◌, arith, Bytes,
  Option-cases,
}
use fox.Route.{Route}
use fox.Node.{Node, Nodes, nil, cons, routes, wildcards}
use fox.Lookup.{Library, LookupState}
use fox.Lookup.Accept.{is_exact_slash, first_match}
use fox.Lookup.Accept.Taken.{IsTaken, first_match-IsTaken}
use fox.Lookup.State.{Found, has_suffix, record_param}
use fox.Lookup.Step.{
  leaf_match, first_wildcard, empty_match, match_trailing_slash, allows_slash, optional_allows,
}
use fox.Lookup.Trail.{In, first, later, Trail, Recorded, to_node, to_empty, slash_added, IsAnswer}
use fox.Lookup.Goes.{Recorded-append}

-- What is found, if anything is.
abbrev pub IfFound :
    {M E : Type 0} → (Found M → Type 0) → Option (Found M) × LookupState M E → Type 0
IfFound P (some f, memo) = P f
IfFound P (none, memo) = Unit

allows_slash-not_exact :
    {M : Type 0} (r : Route M) → allows_slash r ≡ true → is_exact_slash r.handle_slash ≡ false
allows_slash-not_exact r h = ground arith

module _ {M E : Type 0} (lib : Library M E) (method : Bytes) (lazy : Bool) where
  pub leaf_match-IfFound :
      (P : Found M → Type 0) (test : Route M → Bool) (tsr : Bool) (n : Node M)
      (captured : List Bytes) (memo : LookupState M E)
      → ((i : ℕ)
          → IsTaken lib method test (routes n) i
          → P (record { index = i; node = n; tsr = tsr; captured = captured }))
      → IfFound P (leaf_match lib method lazy test tsr n captured memo)
  unfolding leaf_match
  leaf_match-IfFound P test tsr n captured memo h =
      elim (Option-cases (first_match lib method test (routes n) memo).0) [
        | inl e ↦ rw (leaf_match, e) tt
        | inr (i, e) ↦
            rw (leaf_match, e) (h i (first_match-IsTaken lib method test (routes n) memo i e))
      ]

  first_wildcard-IsTaken :
      (test : Route M → Bool) (ws : Nodes M) (memo : LookupState M E) (i : ℕ) (w : Node M)
      → (first_wildcard lib method lazy test ws memo).0 ≡ some (i, w)
      → In w ws × IsTaken lib method test (routes w) i
  unfolding first_wildcard
  first_wildcard-IsTaken test nil memo i w h = ground arith
  first_wildcard-IsTaken test (cons c cs) memo i w h =
      elim (Option-cases (first_match lib method test (routes c) memo).0) [
        | inl e ↦
            let (m, t) =
              first_wildcard-IsTaken test cs (first_match lib method test (routes c) memo).1 i w
                (rw (first_wildcard, e) at h) in
            (later m, t)
        | inr (j, e) ↦
            let q : ◌≡◌ {A = Option (ℕ × Node M)} (some (j, c)) (some (i, w)) =
              rw (first_wildcard, e) at h in
            let k : j ≡ i = ground (arith, q) in
            let l : c ≡ w = ground (arith, q) in
            rw (← l) (rw (← k) (first, first_match-IsTaken lib method test (routes c) memo j e))
      ]

  pub empty_match-IfFound :
      (P : Found M → Type 0) (test : Route M → Bool) (tsr : Bool) (n : Node M)
      (captured : List Bytes) (memo : LookupState M E)
      → ((i : ℕ) (w : Node M)
          → In w (wildcards n)
          → IsTaken lib method test (routes w) i
          → P (record { index = i; node = w; tsr = tsr; captured = record_param lazy captured [] }))
      → IfFound P (empty_match lib method lazy test tsr n captured memo)
  unfolding empty_match
  empty_match-IfFound P test tsr n captured memo h =
      elim (Option-cases (first_wildcard lib method lazy test (wildcards n) memo).0) [
        | inl e ↦ rw (empty_match, e) tt
        | inr ((i, w), e) ↦
            let (m, t) = first_wildcard-IsTaken test (wildcards n) memo i w e in
            rw (empty_match, e) (h i w m t)
      ]

  module _ (root : Node M) (path : Bytes) (before : List Bytes) where
    abbrev pub IsFound : Found M → Type 0
    IsFound = IsAnswer lib root method path lazy before

    -- A child whose text is the path with a slash.
    pub match_trailing_slash-IfFound :
        (up : Option (Node M)) (child : Node M) (captured vs : List Bytes) (memo : LookupState M E)
        → Trail lib root up child (path ++ b'/' ∷ []) vs
        → has_suffix path (b'/' ∷ []) ≡ false
        → Recorded lazy before vs captured
        → IfFound IsFound (match_trailing_slash lib method lazy child captured memo)
    unfolding match_trailing_slash
    match_trailing_slash-IfFound up child captured vs memo t q c =
        after (leaf_match lib method lazy allows_slash true child captured memo) (
          leaf_match-IfFound IsFound allows_slash true child captured memo
            (λ i (r, g, e, k). (r, g, k, slash_added (allows_slash-not_exact r e) q (to_node t) c)))
      where
        after :
            (p : Option (Found M) × LookupState M E)
            → IfFound IsFound p
            → IfFound IsFound (elim p.0 as (λ _. Option (Found M) × LookupState M E) [
              | some f ↦ (some f, p.1)
              | none ↦ empty_match lib method lazy optional_allows true child captured p.1
            ])
        after (some f, m) h = h
        after (none, m) h =
            empty_match-IfFound IsFound optional_allows true child captured m (λ i w n (r, g, e, k).
              (
                r,
                g,
                k,
                slash_added (ground (arith, e)) q (to_empty t n (ground (arith, e)))
                    (Recorded-append lazy before vs captured [] c),
              ))
