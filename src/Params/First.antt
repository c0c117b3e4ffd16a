-- ===== src/Params/First.antt =====
-- Get and Has, against the first parameter of a name.
use fox.Prelude.{
  ◌≡◌, ◌⊎◌, refl, ap, true, false, List, [], ◌∷◌, ◌++◌, Bytes, beq, beq_iff, All, inl, inr,
  Bool-cases,
}
use fox.Params.{Param, get, has}

abbrev pub Lacks : Bytes → List Param → Type 0
Lacks name params = All (λ p. beq p.key name ≡ false) params

-- The parameter of this name, behind others of other names.
abbrev pub FirstIs : Bytes → List Param → Bytes → Type 0
FirstIs name params value =
    (before : List Param) × (after : List Param) × (params
      ≡ before ++ (record { key = name; value = value }) ∷ after)
    × Lacks name before

-- Either Has is false, no parameter has the name and Get is empty; or Has is true and Get is the value
-- of the first parameter of that name.
pub get-has-first :
    (params : List Param) (name : Bytes)
    → ((has params name ≡ false) × (get params name ≡ []) × Lacks name params)
      ⊎ ((has params name ≡ true) × FirstIs name params (get params name))
unfolding get has
get-has-first [] name = inl (refl, refl, tt)
get-has-first (p ∷ params) name = elim (Bool-cases (beq p.key name)) [
  | inl e ↦
      let k : p.key ≡ name = (beq_iff p.key name).0 e in
      rw (get, has, e) (inr (refl, ([], params, ap (λ n. record p { key = n } ∷ params) k, tt)))
  | inr e ↦
      rw (get, has, e)
        (elim (get-has-first params name) [
          | inl (h, g, l) ↦ inl (h, g, (refl, l))
          | inr (h, (before, after, s, l)) ↦ inr (h, (p ∷ before, after, ap (λ r. p ∷ r) s, (e, l)))
        ])
]
