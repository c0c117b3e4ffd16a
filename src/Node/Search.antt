-- ===== src/Node/Search.antt =====
-- sort.Search, as the edges of a node use it: the binary search finds the first static child whose
-- label is not below the one looked for.
use mathlib.Core.Bool.{false≢true}
use fox.Prelude.{
  ℕ, zero, suc, ◌+◌, ◌-◌, ◌/◌, ◌≤◌, ◌<◌, ◌≡◌, refl, sym, ◌∙◌, Bool, true, false, some, inl, inr,
  arith, ltb, if◌then◌else◌, Bool-cases, Option-cases,
}
use fox.Node.{
  Node, Nodes, nil, cons, label, count, nth, label_at_least, search_between, search_first,
  label_index,
}

module _ (f : ℕ → Bool) (mono : (a b : ℕ) → a ≤ b → f a ≡ true → f b ≡ true) where
  abbrev IsFirst : ℕ → ℕ → ℕ → Type 0
  IsFirst i j r =
      (i ≤ r)
      × (r ≤ j)
      × ((k : ℕ) → i ≤ k → k < r → f k ≡ false)
      × ((k : ℕ) → r ≤ k → k < j → f k ≡ true)

  false_below : (k m : ℕ) → k ≤ m → f m ≡ false → f k ≡ false
  false_below k m h e = elim (Bool-cases (f k)) [
    | inl t ↦ absurd (false≢true (sym e ∙ mono k m h t))
    | inr t ↦ t
  ]

  search_between-IsFirst :
      (fuel i j : ℕ) → i ≤ j → j - i ≤ fuel → IsFirst i j (search_between fuel f i j)
  unfolding search_between
  search_between-IsFirst zero i j h b =
      (omega arith, omega arith, λ k p q. absurd (omega arith), λ k p q. absurd (omega arith))
  search_between-IsFirst (suc fuel) i j h b = elim (Bool-cases (ltb i j)) [
    | inr stop ↦
        rw (search_between, stop)
          (omega arith, omega arith, λ k p q. absurd (omega arith), λ k p q. absurd (ground arith))
    | inl go ↦ elim (Bool-cases (f ((i + j) / 2))) [
      | inl e ↦
          let (p, q, below, above) =
            search_between-IsFirst fuel i ((i + j) / 2) (ground arith) (ground arith) in
          rw (search_between, go, e)
            (
              p,
              ground arith,
              below,
              λ k m n. elim (Bool-cases (ltb k ((i + j) / 2))) [
                | inl l ↦ above k m (ground arith)
                | inr l ↦ mono ((i + j) / 2) k (ground arith) e
              ],
            )
      | inr e ↦
          let (p, q, below, above) =
            search_between-IsFirst fuel ((i + j) / 2 + 1) j (ground arith) (ground arith) in
          rw (search_between, go, e)
            (
              omega arith,
              q,
              λ k m n. elim (Bool-cases (ltb k ((i + j) / 2 + 1))) [
                | inl l ↦ false_below k ((i + j) / 2) (ground arith) e
                | inr l ↦ below k (ground arith) n
              ],
              above,
            )
    ]
  ]

module _ {M : Type 0} where
  -- The statics of a node have strictly increasing labels.
  abbrev pub Above : ℕ → Nodes M → Type 0
  Above l nil = Unit
  Above l (cons n ns) = (l < label n) × Above l ns

  abbrev pub SortedLabels : Nodes M → Type 0
  SortedLabels nil = Unit
  SortedLabels (cons n ns) = Above (label n) ns × SortedLabels ns

  -- The number of children whose label is below `c`, before the first other one.
  unfoldable pub lower : Nodes M → ℕ → ℕ
  lower nil c = 0
  lower (cons n ns) c = if ltb (label n) c then suc (lower ns c) else 0

  Above-nth :
      (l : ℕ) (ns : Nodes M) (i : ℕ) (x : Node M) → Above l ns → nth ns i ≡ some x → l < label x
  Above-nth l nil i x a e = ground arith
  Above-nth l (cons n ns) zero x a e = ground arith
  Above-nth l (cons n ns) (suc i) x a e = Above-nth l ns i x a.1 e

  label_at_least_mono :
      (ns : Nodes M) (c a b : ℕ)
      → SortedLabels ns
      → a ≤ b
      → label_at_least ns c a ≡ true
      → label_at_least ns c b ≡ true
  label_at_least_mono nil c a b s h e = refl
  label_at_least_mono (cons n ns) c zero zero s h e = e
  label_at_least_mono (cons n ns) c zero (suc b) s h e = elim (Option-cases (nth ns b)) [
    | inl q ↦ rw (label_at_least, q) refl
    | inr (x, q) ↦ ground (arith, q, Above-nth (label n) ns b x s.0 q)
  ]
  label_at_least_mono (cons n ns) c (suc a) zero s h e = absurd (omega arith)
  label_at_least_mono (cons n ns) c (suc a) (suc b) s h e =
      label_at_least_mono ns c a b s.1 (omega arith) e

  lower_unique :
      (ns : Nodes M) (c r : ℕ)
      → r ≤ count ns
      → ((k : ℕ) → k < r → label_at_least ns c k ≡ false)
      → (r < count ns → label_at_least ns c r ≡ true)
      → r ≡ lower ns c
  unfolding lower
  lower_unique nil c r h below here = omega arith
  lower_unique (cons n ns) c zero h below here = ground (arith, here (omega arith))
  lower_unique (cons n ns) c (suc r) h below here = ground (
    arith,
    below 0 (omega arith),
    lower_unique ns c r (omega arith) (λ k m. below (suc k) (omega arith))
        (λ m. here (omega arith)),
  )

  -- On statics sorted by label, the binary search for a label gives the number of labels below it.
  pub label_index-lower : (ns : Nodes M) (c : ℕ) → SortedLabels ns → label_index ns c ≡ lower ns c
  unfolding label_index search_first
  label_index-lower ns c s =
      let (p, q, below, above) =
        search_between-IsFirst (label_at_least ns c) (λ a b. label_at_least_mono ns c a b s)
          (count ns) 0 (count ns) (omega arith) (omega arith) in
      lower_unique ns c _ q (λ k m. below k (omega arith) m) (λ m. above _ (omega arith) m)
