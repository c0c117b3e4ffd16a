-- ===== src/Parser/Size/Capped.antt =====
-- minRegexpSize: the cap loses nothing.
use mathlib.Core.Option.{some_inj}
use fox.Prelude.{
  ℕ, zero, suc, ◌+◌, ◌*◌, ◌≤◌, ◌<◌, ◌≡◌, ◌↔◌, refl, ap, ◌∙◌, min, max, true, false, Option, some,
  ◌==◌, if◌then◌else◌, ltb, arith, inl, inr, Bool-cases, Option-cases,
}
use fox.Parser.Size.{
  Syntax, no_match, literal, repeat, other, Syntaxes, no_more, more, copies, min_regexp_size,
  add_sizes, check_regexp_size,
}

-- The bound without a cap, for reference.
abbrev mutual
  pub size : Syntax → ℕ
  size no_match = 0
  size (literal runes) = max runes 1
  size (repeat low high sub) =
      let n = size sub in if copies low high == 0 then 1 else copies low high * n
  size (other no_more) = 1
  size (other (more sub subs)) = size sub + sizes subs

  pub sizes : Syntaxes → ℕ
  sizes no_more = 0
  sizes (more sub subs) = size sub + sizes subs

mul-le : (c n : ℕ) → (c == 0) ≡ false → n ≤ c * n
mul-le zero n h = ground (arith, h)
mul-le (suc c) n h = omega arith

mul-cap : (c n l : ℕ) → (c == 0) ≡ false → min (c * min n l) l ≡ min (c * n) l
mul-cap c n l h = elim (Bool-cases (ltb n l)) [
  | inl e ↦ let p : min n l ≡ n = ground (arith, e) in rw p refl
  | inr e ↦
      let p : min n l ≡ l = ground (arith, e) in
      rw p (ground (arith, e, mul-le c n h, mul-le c l h))
]

-- A sum that has passed the limit is cut.
cap_sum :
    (a s b limit rest : ℕ)
    → (a ≤ limit → a ≡ s)
    → (limit < a → limit < s)
    → (a ≤ limit → rest ≡ min (a + b) (limit + 1))
    → (if ltb limit a then limit + 1 else rest) ≡ min (s + b) (limit + 1)
cap_sum a s b limit rest f g h = elim (Bool-cases (ltb limit a)) [
  | inl e ↦ rw e (omega (arith, g (ground (arith, e))))
  | inr e ↦
      let l : a ≤ limit = ground (arith, e) in rw e (h l ∙ ap (λ m. min (m + b) (limit + 1)) (f l))
]

mutual
  unfolding min_regexp_size

  min_regexp_size-capped :
      (re : Syntax) (limit : ℕ) → min_regexp_size re limit ≡ min (size re) (limit + 1)
  min_regexp_size-capped no_match limit = omega arith
  min_regexp_size-capped (literal runes) limit = refl
  min_regexp_size-capped (repeat low high sub) limit = elim (Bool-cases (copies low high == 0)) [
    | inl e ↦ rw (min_regexp_size, e) (omega arith)
    | inr e ↦
        rw (min_regexp_size, e, min_regexp_size-capped sub limit)
          (mul-cap (copies low high) (size sub) (limit + 1) e)
  ]
  min_regexp_size-capped (other no_more) limit = omega arith
  min_regexp_size-capped (other (more sub subs)) limit =
      let p = min_regexp_size-capped sub limit in
      cap_sum (min_regexp_size sub limit) (size sub) (sizes subs) limit _ (λ h. omega (arith, p, h))
        (λ h. omega (arith, p, h)) (λ h. add_sizes-capped subs limit (min_regexp_size sub limit) h)

  add_sizes-capped :
      (subs : Syntaxes) (limit n : ℕ)
      → n ≤ limit
      → add_sizes subs limit n ≡ min (n + sizes subs) (limit + 1)
  add_sizes-capped no_more limit n h = omega (arith, h)
  add_sizes-capped (more sub subs) limit n h =
      let p = min_regexp_size-capped sub limit in
      cap_sum (n + min_regexp_size sub limit) (n + size sub) (sizes subs) limit _
        (λ k. omega (arith, p, k)) (λ k. omega (arith, p, k))
        (λ k. add_sizes-capped subs limit (n + min_regexp_size sub limit) k)
      ∙ ap (λ m. min m (limit + 1)) (omega arith)

too_small : (s limit m : ℕ) → m ≡ min s (limit + 1) → ltb limit m ≡ false → s ≤ limit
too_small s limit m h e = ground (arith, h, e)

-- checkRegexpSize accepts an expression exactly if its bound and the size of its program, which
-- syntax.Compile gives, are within the limit: capping the bound changes no answer.
pub check_regexp_size_iff :
    (program_size : Syntax → Option ℕ) (re : Syntax) (limit : ℕ)
    → (check_regexp_size program_size re limit ≡ true)
      ↔ ((size re ≤ limit) × ((n : ℕ) × (program_size re ≡ some n) × (n ≤ limit)))
unfolding check_regexp_size
check_regexp_size_iff program_size re limit =
    elim (Bool-cases (ltb limit (min_regexp_size re limit))) [
      | inl e ↦
          rw (check_regexp_size, e)
            (
              (λ h. ground (arith, h)),
              (λ (l, _). ground (arith, l, e, min_regexp_size-capped re limit)),
            )
      | inr e ↦
          let l : size re ≤ limit =
            too_small (size re) limit _ (min_regexp_size-capped re limit) e in
          elim (Option-cases (program_size re)) [
            | inl f ↦
                rw (check_regexp_size, e, f)
                  ((λ h. ground (arith, h)), (λ (_, (m, p, _)). ground (arith, p)))
            | inr (n, f) ↦
                rw (check_regexp_size, e, f)
                  (
                    (λ h. (l, (n, refl, ground (arith, h)))),
                    (λ (_, (m, p, k)). ground (arith, some_inj.0 p, k)),
                  )
          ]
    ]
