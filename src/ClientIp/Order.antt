-- ===== src/ClientIp/Order.antt =====
-- Chain asks its resolvers in order, up to the first that finds an address.
use fox.Prelude.{
  ◌≡◌, ◌↔◌, ◌⊎◌, length-append, refl, sym, ap, ◌∙◌, none, List, [], ◌∷◌, ◌++◌, arith, length, All,
  inl, inr,
}
use fox.ClientIp.{
  Failure, Resolved, resolved, failed, Request, address, Net, chain, chain_from, no_resolver,
}

Resolved-cases :
    {A : Type 0} (r : Resolved A)
    → ((a : A) × (r ≡ resolved a)) ⊎ ((f : List Failure) × (r ≡ failed f))
Resolved-cases (resolved a) = inl (a, refl)
Resolved-cases (failed f) = inr (f, refl)

module _ {A P : Type 0} (net : Net A P) (c : Request) where
  abbrev Fails : (Request → Resolved A) → Type 0
  Fails r = address (r c) ≡ none

  -- The resolver that answers: those before it fail.
  abbrev pub Answers : List (Request → Resolved A) → A → Type 0
  Answers rs a =
      (before : List (Request → Resolved A)) × (sub : Request → Resolved A) × (after : List
        (Request → Resolved A))
      × (rs ≡ before ++ sub ∷ after)
      × All Fails before
      × (sub c ≡ resolved a)

  first :
      (errs : List Failure) (rs : List (Request → Resolved A)) (a : A)
      → chain_from net errs rs c ≡ resolved a
      → Answers rs a
  unfolding chain_from
  first errs [] a e = ground (arith, e)
  first errs (sub ∷ rs) a e = elim (Resolved-cases (sub c)) [
    | inl (b, q) ↦ ([], sub, rs, refl, tt, q ∙ (rw (chain_from, q) at e))
    | inr (f, q) ↦
        let (before, by, after, s, h, r) = first (errs ++ f) rs a (rw (chain_from, q) at e) in
        (sub ∷ before, by, after, ap (λ t. sub ∷ t) s, (ap address q, h), r)
  ]

  reached :
      (errs : List Failure) (before : List (Request → Resolved A)) (sub : Request → Resolved A)
      (after : List (Request → Resolved A)) (a : A)
      → All Fails before
      → sub c ≡ resolved a
      → chain_from net errs (before ++ sub ∷ after) c ≡ resolved a
  unfolding chain_from
  reached errs [] sub after a h e = rw (chain_from, e) refl
  reached errs (b ∷ before) sub after a (k, h) e = elim (Resolved-cases (b c)) [
    | inl (x, q) ↦ ground (arith, sym (ap address q) ∙ k)
    | inr (f, q) ↦ rw (chain_from, q) (reached (errs ++ f) before sub after a h e)
  ]

  chain-chain_from :
      (sub : Request → Resolved A) (rs : List (Request → Resolved A))
      → chain net (sub ∷ rs) c ≡ chain_from net [] (sub ∷ rs) c
  chain-chain_from sub rs = unfold chain in refl

  chain-nil : chain net [] c ≡ failed (no_resolver ∷ [])
  chain-nil = unfold chain in refl

  -- Chain finds an address exactly if one of its resolvers does and all before it fail; the address
  -- is that of the first which does.
  pub chain-first :
      (rs : List (Request → Resolved A)) (a : A) → (chain net rs c ≡ resolved a) ↔ Answers rs a
  chain-first [] a = (
    (λ e. ground (arith, sym (ap address chain-nil) ∙ ap address e)),
    (λ (before, by, after, s, _, _).
        ground (arith, ap length s, length-append before (by ∷ after))),
  )
  chain-first (sub ∷ rs) a = (
    (λ e. first [] (sub ∷ rs) a (sym (chain-chain_from sub rs) ∙ e)),
    (λ (before, by, after, s, h, e).
        chain-chain_from sub rs
        ∙ (ap (λ t. chain_from net [] t c) s ∙ reached [] before by after a h e)),
  )
