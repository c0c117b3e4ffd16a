-- ===== src/Node/Edges/Valid.antt =====
-- The edges of a valid node: what getStaticEdge finds, and that the other operations on static
-- edges keep the node valid.
use fox.Prelude.{
  ℕ, zero, suc, ◌≤◌, ◌<◌, ◌≡◌, ◌≢◌, refl, none, some, inl, inr, arith, ltb, Bool-cases,
  Option-cases,
}
use fox.Node.{
  Node, Nodes, node, nil, cons, label, key, statics, nth, put, insert_at, delete_at,
  get_static_edge,
}
use fox.Node.Search.{SortedLabels, Above, lower, label_index-lower}
use fox.Node.Content.{HeadIs, IsValid, AreStatics}
use fox.Node.Edges.{Holds, Misses}

module _ {M : Type 0} where
  pub nth-IsValid :
      (ns : Nodes M) (i : ℕ) (child : Node M)
      → AreStatics ns
      → nth ns i ≡ some child
      → HeadIs (label child) (key child) × IsValid child
  nth-IsValid nil i child v h = ground arith
  nth-IsValid (cons n ns) zero child v h = let e : n ≡ child = ground arith in rw (← e) (v.0, v.1)
  nth-IsValid (cons n ns) (suc i) child v h = nth-IsValid ns i child v.2 h

  Above-put :
      (l : ℕ) (ns : Nodes M) (i : ℕ) (d : Node M) → l < label d → Above l ns → Above l (put ns i d)
  Above-put l nil i d h a = tt
  Above-put l (cons n ns) zero d h a = (h, a.1)
  Above-put l (cons n ns) (suc i) d h a = (a.0, Above-put l ns i d h a.1)

  Above-insert :
      (l : ℕ) (ns : Nodes M) (i : ℕ) (d : Node M)
      → l < label d
      → Above l ns
      → Above l (insert_at ns i d)
  Above-insert l nil zero d h a = (h, tt)
  Above-insert l nil (suc i) d h a = (h, tt)
  Above-insert l (cons n ns) zero d h a = (h, a)
  Above-insert l (cons n ns) (suc i) d h a = (a.0, Above-insert l ns i d h a.1)

  Above-weaken : (l m : ℕ) (ns : Nodes M) → l ≤ m → Above m ns → Above l ns
  Above-weaken l m nil h a = tt
  Above-weaken l m (cons n ns) h a = (omega arith, Above-weaken l m ns h a.1)

  pub Sorted-put :
      (ns : Nodes M) (c : ℕ) (child d : Node M)
      → SortedLabels ns
      → Holds ns c child
      → label d ≡ c
      → SortedLabels (put ns (lower ns c) d)
  unfolding lower
  Sorted-put nil c child d s h e = tt
  Sorted-put (cons n ns) c child d s h e = elim (Bool-cases (ltb (label n) c)) [
    | inl q ↦
        rw (lower, q)
          (
            Above-put (label n) ns (lower ns c) d (ground arith) s.0,
            Sorted-put ns c child d s.1 (rw q at h) e,
          )
    | inr q ↦ let p : label n ≡ label d = ground arith in rw (lower, q) (rw (← p) s.0, s.1)
  ]

  pub Sorted-insert :
      (ns : Nodes M) (c : ℕ) (d : Node M)
      → SortedLabels ns
      → Misses ns c
      → label d ≡ c
      → SortedLabels (insert_at ns (lower ns c) d)
  unfolding lower
  Sorted-insert nil c d s h e = (tt, tt)
  Sorted-insert (cons n ns) c d s h e = elim (Bool-cases (ltb (label n) c)) [
    | inl q ↦
        rw (lower, q)
          (
            Above-insert (label n) ns (lower ns c) d (ground arith) s.0,
            Sorted-insert ns c d s.1 (rw q at h) e,
          )
    | inr q ↦
        let m : label n ≢ c = (rw q at h) n refl in
        let l : label d < label n = ground arith in
        rw (lower, q) ((l, Above-weaken (label d) (label n) ns (omega arith) s.0), s)
  ]

  pub AreStatics-put :
      (ns : Nodes M) (i : ℕ) (d : Node M)
      → AreStatics ns
      → HeadIs (label d) (key d)
      → IsValid d
      → AreStatics (put ns i d)
  AreStatics-put nil i d v h k = tt
  AreStatics-put (cons n ns) zero d v h k = (h, k, v.2)
  AreStatics-put (cons n ns) (suc i) d v h k = (v.0, v.1, AreStatics-put ns i d v.2 h k)

  pub AreStatics-insert :
      (ns : Nodes M) (i : ℕ) (d : Node M)
      → AreStatics ns
      → HeadIs (label d) (key d)
      → IsValid d
      → AreStatics (insert_at ns i d)
  AreStatics-insert nil zero d v h k = (h, k, tt)
  AreStatics-insert nil (suc i) d v h k = (h, k, tt)
  AreStatics-insert (cons n ns) zero d v h k = (h, k, v)
  AreStatics-insert (cons n ns) (suc i) d v h k = (v.0, v.1, AreStatics-insert ns i d v.2 h k)

  Above-delete : (l : ℕ) (ns : Nodes M) (i : ℕ) → Above l ns → Above l (delete_at ns i)
  Above-delete l nil i a = tt
  Above-delete l (cons n ns) zero a = a.1
  Above-delete l (cons n ns) (suc i) a = (a.0, Above-delete l ns i a.1)

  pub Sorted-delete : (ns : Nodes M) (i : ℕ) → SortedLabels ns → SortedLabels (delete_at ns i)
  Sorted-delete nil i s = tt
  Sorted-delete (cons n ns) zero s = s.1
  Sorted-delete (cons n ns) (suc i) s = (Above-delete (label n) ns i s.0, Sorted-delete ns i s.1)

  pub AreStatics-delete : (ns : Nodes M) (i : ℕ) → AreStatics ns → AreStatics (delete_at ns i)
  AreStatics-delete nil i v = tt
  AreStatics-delete (cons n ns) zero v = v.2
  AreStatics-delete (cons n ns) (suc i) v = (v.0, v.1, AreStatics-delete ns i v.2)

  -- What getStaticEdge returns is the child at the place of the label.
  pub get_static_edge-some :
      (n : Node M) (c idx : ℕ) (child : Node M)
      → SortedLabels (statics n)
      → get_static_edge n c ≡ some (idx, child)
      → (idx ≡ lower (statics n) c) × Holds (statics n) c child
  unfolding get_static_edge
  get_static_edge-some (node h rs st ps ws) c idx child s e =
      elim (Option-cases (nth st (lower st c))) [
        | inl q ↦ ground (arith, label_index-lower st c s, q)
        | inr (x, q) ↦ ground (arith, label_index-lower st c s, q)
      ]

  pub get_static_edge-none :
      (n : Node M) (c : ℕ)
      → SortedLabels (statics n)
      → get_static_edge n c ≡ none
      → Misses (statics n) c
  unfolding get_static_edge
  get_static_edge-none (node h rs st ps ws) c s e =
      λ child q l. ground (arith, label_index-lower st c s, q, l)
