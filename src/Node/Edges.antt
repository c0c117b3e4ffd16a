-- ===== src/Node/Edges.antt =====
-- The edges of a node as updates of what the node holds: getStaticEdge finds the child whose key
-- begins with a byte, and adding, replacing or deleting an edge changes the paths that begin with
-- its label and no other.
pub mod Valid
pub mod Update
use fox.Prelude.{
  ℕ, zero, suc, ◌+◌, ◌≤◌, ◌<◌, ◌≡◌, ◌≢◌, refl, sym, ap, ◌∙◌, Bool, true, false, Option, none, some,
  List, [], ◌∷◌, inl, inr, arith, ltb, ◌==◌, if◌then◌else◌, Bool-cases, ==_iff, Option-cases, Bytes,
}
use fox.Route.{Route}
use fox.Node.{
  Node, Nodes, node, nil, cons, label, key, head, statics, with_statics, count, nth, put, insert_at,
  delete_at, label_index, get_static_edge, add_static_edge, replace_static_edge, del_static_edge,
}
use fox.Node.Search.{SortedLabels, Above, lower, label_index-lower}
use fox.Node.Content.{Sym, byte, strip, routes_at, in_statics, under, HeadIs, IsValid, AreStatics}

-- A key that begins with another byte does not fit.
pub strip-other :
    (l b : ℕ) (k : Bytes) (w : List Sym) → HeadIs l k → b ≢ l → strip k (byte b ∷ w) ≡ none
strip-other l b [] w h n = elim h [ ]
strip-other l b (x ∷ k) w h n = ground arith

module _ {M : Type 0} where
  -- The child found by label.
  abbrev pub Holds : Nodes M → ℕ → Node M → Type 0
  Holds ns c child = (nth ns (lower ns c) ≡ some child) × (label child ≡ c)

  abbrev pub Misses : Nodes M → ℕ → Type 0
  Misses ns c = (child : Node M) → nth ns (lower ns c) ≡ some child → label child ≢ c

  in_statics-Above :
      (l b : ℕ) (ns : Nodes M) (w : List Sym)
      → AreStatics ns
      → Above l ns
      → b ≤ l
      → in_statics ns (byte b ∷ w) ≡ []
  in_statics-Above l b nil w v a h = refl
  in_statics-Above l b (cons n ns) w v a h =
      rw (in_statics, strip-other (label n) b (key n) w v.0 (ground arith))
        (in_statics-Above l b ns w v.2 a.1 h)

  pub in_statics-Holds :
      (ns : Nodes M) (c : ℕ) (child : Node M) (w : List Sym)
      → SortedLabels ns
      → AreStatics ns
      → Holds ns c child
      → in_statics ns (byte c ∷ w) ≡ under child (byte c ∷ w)
  unfolding lower
  in_statics-Holds nil c child w s v h = ground arith
  in_statics-Holds (cons n ns) c child w s v h = elim (Bool-cases (ltb (label n) c)) [
    | inl e ↦
        rw (in_statics, strip-other (label n) c (key n) w v.0 (ground arith))
          (in_statics-Holds ns c child w s.1 v.2 (rw e at h))
    | inr e ↦ ground (arith, in_statics-Above (label n) c ns w v.2 s.0 (ground arith))
  ]

  pub in_statics-Misses :
      (ns : Nodes M) (c : ℕ) (w : List Sym)
      → SortedLabels ns
      → AreStatics ns
      → Misses ns c
      → in_statics ns (byte c ∷ w) ≡ []
  unfolding lower
  in_statics-Misses nil c w s v h = refl
  in_statics-Misses (cons n ns) c w s v h = elim (Bool-cases (ltb (label n) c)) [
    | inl e ↦
        rw (in_statics, strip-other (label n) c (key n) w v.0 (ground arith))
          (in_statics-Misses ns c w s.1 v.2 (rw e at h))
    | inr e ↦
        let m : label n ≢ c = (rw e at h) n refl in
        rw (in_statics, strip-other (label n) c (key n) w v.0 (λ q. m (sym q)))
          (in_statics-Above (label n) c ns w v.2 s.0 (ground arith))
  ]

  in_statics-cons :
      (d : Node M) (ns : Nodes M) (c b : ℕ) (w : List Sym)
      → HeadIs c (key d)
      → in_statics ns (byte c ∷ w) ≡ []
      → in_statics (cons d ns) (byte b ∷ w)
        ≡ (if b == c then under d (byte c ∷ w) else in_statics ns (byte b ∷ w))
  in_statics-cons d ns c b w k e = elim (Bool-cases (b == c)) [
    | inl q ↦ let p : b ≡ c = (==_iff b c).0 q in rw (q, p) (ground arith)
    | inr q ↦ rw (q, in_statics, strip-other c b (key d) w k (ground arith)) refl
  ]

  in_statics-keep :
      (n : Node M) (ns ns' : Nodes M) (c b : ℕ) (d : Node M) (w : List Sym)
      → HeadIs (label n) (key n)
      → c ≢ label n
      → in_statics ns' (byte b ∷ w)
        ≡ (if b == c then under d (byte c ∷ w) else in_statics ns (byte b ∷ w))
      → in_statics (cons n ns') (byte b ∷ w)
        ≡ (if b == c then under d (byte c ∷ w) else in_statics (cons n ns) (byte b ∷ w))
  in_statics-keep n ns ns' c b d w k m e = elim (Bool-cases (b == c)) [
    | inl q ↦
        let p : b ≡ c = (==_iff b c).0 q in
        rw (q, in_statics, strip-other (label n) b (key n) w k (rw p m)) (rw q at e)
    | inr q ↦ ground (arith, q)
  ]

  in_statics-swap :
      (n d : Node M) (ns : Nodes M) (c b : ℕ) (w : List Sym)
      → HeadIs c (key n)
      → HeadIs c (key d)
      → in_statics ns (byte c ∷ w) ≡ []
      → in_statics (cons d ns) (byte b ∷ w)
        ≡ (if b == c then under d (byte c ∷ w) else in_statics (cons n ns) (byte b ∷ w))
  in_statics-swap n d ns c b w h k e = elim (Bool-cases (b == c)) [
    | inl q ↦ let p : b ≡ c = (==_iff b c).0 q in rw (q, p) (ground arith)
    | inr q ↦
        let m : b ≢ c = ground arith in
        rw (q, in_statics, strip-other c b (key d) w k m, strip-other c b (key n) w h m) refl
  ]

  in_statics-skip :
      (n : Node M) (ns ns' : Nodes M) (c b : ℕ) (w : List Sym)
      → HeadIs (label n) (key n)
      → c ≢ label n
      → in_statics ns' (byte b ∷ w) ≡ (if b == c then [] else in_statics ns (byte b ∷ w))
      → in_statics (cons n ns') (byte b ∷ w)
        ≡ (if b == c then [] else in_statics (cons n ns) (byte b ∷ w))
  in_statics-skip n ns ns' c b w k m e = elim (Bool-cases (b == c)) [
    | inl q ↦
        let p : b ≡ c = (==_iff b c).0 q in
        rw (q, in_statics, strip-other (label n) b (key n) w k (rw p m)) (rw q at e)
    | inr q ↦ ground (arith, q)
  ]

  in_statics-drop :
      (n : Node M) (ns : Nodes M) (c b : ℕ) (w : List Sym)
      → HeadIs c (key n)
      → in_statics ns (byte c ∷ w) ≡ []
      → in_statics ns (byte b ∷ w) ≡ (if b == c then [] else in_statics (cons n ns) (byte b ∷ w))
  in_statics-drop n ns c b w h e = elim (Bool-cases (b == c)) [
    | inl q ↦ let p : b ≡ c = (==_iff b c).0 q in rw (q, p) e
    | inr q ↦ rw (q, in_statics, strip-other c b (key n) w h (ground arith)) refl
  ]

  -- What a write at the place of `c` changes, where the child there has the label `c`.
  pub in_statics-put :
      (ns : Nodes M) (c b : ℕ) (child d : Node M) (w : List Sym)
      → SortedLabels ns
      → AreStatics ns
      → Holds ns c child
      → HeadIs c (key d)
      → in_statics (put ns (lower ns c) d) (byte b ∷ w)
        ≡ (if b == c then under d (byte c ∷ w) else in_statics ns (byte b ∷ w))
  unfolding lower
  in_statics-put nil c b child d w s v h k = ground arith
  in_statics-put (cons n ns) c b child d w s v h k = elim (Bool-cases (ltb (label n) c)) [
    | inl e ↦
        rw (lower, e)
          (in_statics-keep n ns (put ns (lower ns c) d) c b d w v.0 (ground arith)
            (in_statics-put ns c b child d w s.1 v.2 (rw e at h) k))
    | inr e ↦
        let l : label n ≡ c = ground arith in
        rw (lower, e)
          (in_statics-swap n d ns c b w (rw l at v.0) k
            (in_statics-Above (label n) c ns w v.2 s.0 (omega arith)))
  ]

  pub in_statics-insert :
      (ns : Nodes M) (c b : ℕ) (d : Node M) (w : List Sym)
      → SortedLabels ns
      → AreStatics ns
      → Misses ns c
      → HeadIs c (key d)
      → in_statics (insert_at ns (lower ns c) d) (byte b ∷ w)
        ≡ (if b == c then under d (byte c ∷ w) else in_statics ns (byte b ∷ w))
  unfolding lower
  in_statics-insert nil c b d w s v h k = in_statics-cons d nil c b w k refl
  in_statics-insert (cons n ns) c b d w s v h k = elim (Bool-cases (ltb (label n) c)) [
    | inl e ↦
        rw (lower, e)
          (in_statics-keep n ns (insert_at ns (lower ns c) d) c b d w v.0 (ground arith)
            (in_statics-insert ns c b d w s.1 v.2 (rw e at h) k))
    | inr e ↦
        rw (lower, e)
          (in_statics-cons d (cons n ns) c b w k (in_statics-Misses (cons n ns) c w s v h))
  ]

  pub in_statics-delete :
      (ns : Nodes M) (c b : ℕ) (child : Node M) (w : List Sym)
      → SortedLabels ns
      → AreStatics ns
      → Holds ns c child
      → in_statics (delete_at ns (lower ns c)) (byte b ∷ w)
        ≡ (if b == c then [] else in_statics ns (byte b ∷ w))
  unfolding lower
  in_statics-delete nil c b child w s v h = ground arith
  in_statics-delete (cons n ns) c b child w s v h = elim (Bool-cases (ltb (label n) c)) [
    | inl e ↦
        rw (lower, e)
          (in_statics-skip n ns (delete_at ns (lower ns c)) c b w v.0 (ground arith)
            (in_statics-delete ns c b child w s.1 v.2 (rw e at h)))
    | inr e ↦
        let l : label n ≡ c = ground arith in
        rw (lower, e)
          (in_statics-drop n ns c b w (rw l at v.0)
            (in_statics-Above (label n) c ns w v.2 s.0 (omega arith)))
  ]
