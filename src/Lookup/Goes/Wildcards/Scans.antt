-- ===== src/Lookup/Goes/Wildcards/Scans.antt =====
-- lookupByPath: the scan for the end of a capture of a wildcard that has no expression.
use fox.Prelude.{
  ℕ, zero, suc, ◌+◌, ◌-◌, ◌≤◌, ◌<◌, ◌≡◌, ◌≢◌, ◌⊎◌, inl, inr, refl, sym, subst, Bool, false, none,
  some, [], ◌∷◌, ◌==◌, arith, Bytes, take, drop, length, Option-cases, Bool-cases, length-drop,
  length-take, index_byte,
}
use fox.Node.{Node, head}
use fox.Lookup.{Library, LookupState}
use fox.Lookup.Wildcards.{
  Scan, ScanEnd, captured_to, ran_out, no_fuel, index_between, capture_end, fits_key, evaluate,
  round_at, scan_round, scan,
}

index_byte-lt : (s : Bytes) (c i : ℕ) → index_byte s c ≡ some i → i < length s
unfolding index_byte
index_byte-lt [] c i h = ground arith
index_byte-lt (x ∷ s) c i h = elim (Bool-cases (x == c)) [
  | inl e ↦ ground (arith, e)
  | inr e ↦ elim (Option-cases (index_byte s c)) [
    | inl f ↦ ground (arith, e, f)
    | inr (j, f) ↦ ground (arith, e, f, index_byte-lt s c j f)
  ]
]

index_between-within :
    (path : Bytes) (from to c at : ℕ)
    → index_between path from to c ≡ some at
    → (from ≤ at) × (at < length path)
unfolding index_between
index_between-within path from to c at h =
    elim (Option-cases (index_byte (take (to - from) (drop from path)) c)) [
      | inl e ↦ absurd (ground (arith, e))
      | inr (i, e) ↦
          let q : from + i ≡ at = ground (arith, e) in
          omega (
            arith,
            q,
            index_byte-lt (take (to - from) (drop from path)) c i e,
            length-take (to - from) (drop from path),
            length-drop from path,
          )
    ]

module _ {M E : Type 0} (lib : Library M E) (path : Bytes) (w : Node M) (chars : ℕ) where
  -- The end of a capture is behind where the search began, and the capture is not empty.
  abbrev pub IsScanned : ℕ → ScanEnd M E → Type 0
  IsScanned from (captured_to at memo) = (from ≤ at) × (at < length path) × (at ≢ chars)
  IsScanned from (ran_out end memo) = Unit
  IsScanned from (no_fuel memo) = ⊥

  -- A round ends the scan, or goes on with a later start.
  abbrev IsRound : Scan M E → ScanEnd M E ⊎ Scan M E → Type 0
  IsRound s (inl e) = IsScanned s.search_start e
  IsRound s (inr s') =
      (s'.ends ≡ none) × (s.search_start < s'.search_start) × (s'.search_start ≤ length path)

  module _ (k : Bytes) (start end : ℕ) (evaluated : Bool) (memo : LookupState M E) where
    abbrev this : Scan M E
    this = record {
      search_start = start;
      end = end;
      evaluated = evaluated;
      ends = none;
      memo = memo;
    }

    capture_end-plain :
        capture_end lib path w chars false this ≡ (index_between path start end b'/', this)
    unfolding capture_end
    capture_end-plain = elim (Option-cases (index_between path start end b'/')) [
      | inl e ↦ rw (capture_end, e) refl
      | inr (at, e) ↦ rw (capture_end, e) refl
    ]

    scan_round-IsRound :
        (head w).regexp ≡ none → IsRound this (scan_round lib path w chars k false this)
    unfolding scan_round round_at evaluate
    scan_round-IsRound r =
        subst (λ p. IsRound this (round_at lib path w chars k p)) (sym capture_end-plain)
          (elim (Option-cases (index_between path start end b'/')) [
            | inl e ↦ rw e tt
            | inr (at, e) ↦
                let (l, u) = index_between-within path start end b'/' at e in
                rw e (elim (Bool-cases (at == chars)) [
                  | inl t ↦ rw (round_at, t) (refl, omega arith, omega arith)
                  | inr t ↦ elim (Bool-cases (fits_key lib path w chars k at)) [
                    | inl f ↦ rw (round_at, t, f, evaluate, r) (l, u, λ h. ground (arith, h, t))
                    | inr f ↦ rw (round_at, t, f) (refl, omega arith, omega arith)
                  ]
                ])
          ])

  IsScanned-le :
      (from from' : ℕ) (e : ScanEnd M E) → from ≤ from' → IsScanned from' e → IsScanned from e
  IsScanned-le from from' (captured_to at memo) l (a, b, c) = (omega arith, b, c)
  IsScanned-le from from' (ran_out end memo) l h = h
  IsScanned-le from from' (no_fuel memo) l h = h

  pub scan-IsScanned :
      (f : ℕ) (k : Bytes) (start end : ℕ) (evaluated : Bool) (memo : LookupState M E)
      → (head w).regexp ≡ none
      → length path < f + start
      → 0 < f
      → IsScanned start (scan lib path w chars f k false (this k start end evaluated memo))
  unfolding scan
  scan-IsScanned zero k start end evaluated memo r l z = absurd (omega arith)
  scan-IsScanned (suc f) k start end evaluated memo r l z =
      after
        (λ start' end' evaluated' memo' l' z'.
          scan-IsScanned f k start' end' evaluated' memo' r l' z')
        (scan_round lib path w chars k false (this k start end evaluated memo))
        (scan_round-IsRound k start end evaluated memo r)
    where
      after :
          ((start' end' : ℕ) (evaluated' : Bool) (memo' : LookupState M E)
            → length path < f + start'
            → 0 < f
            → IsScanned start'
                (scan lib path w chars f k false (this k start' end' evaluated' memo')))
          → (x : ScanEnd M E ⊎ Scan M E) → IsRound (this k start end evaluated memo) x
          → IsScanned start (elim x as (λ _. ScanEnd M E) [
            | inl e ↦ e
            | inr s' ↦ scan lib path w chars f k false s'
          ])
      after again (inl e) h = h
      after again (inr s') (q, a, b) =
          IsScanned-le start s'.search_start (scan lib path w chars f k false s') (omega arith) (
            subst
              (λ x.
                IsScanned s'.search_start
                  (scan lib path w chars f k false (record s' { ends = x })))
              (sym q)
              (again s'.search_start s'.end s'.evaluated s'.memo (omega arith) (omega arith)))
