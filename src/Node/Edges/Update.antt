-- ===== src/Node/Edges/Update.antt =====
-- The operations on static edges as updates of the content of a node.
use fox.Prelude.{
  ℕ, ◌≡◌, ◌≢◌, refl, sym, ap, ◌∙◌, none, some, List, [], ◌∷◌, ◌++◌, inl, inr, arith, ◌==◌,
  if◌then◌else◌, Bool-cases, ==_iff, Option-cases, Bytes,
}
use fox.Route.{Route}
use fox.Node.{
  Node, Nodes, node, label, key, head, statics, with_statics, put, insert_at, delete_at,
  get_static_edge, add_static_edge, del_static_edge,
}
use fox.Node.Search.{lower, label_index-lower}
use fox.Node.Content.{
  Sym, byte, par, wild, syms, strip, routes_at, in_statics, under, HeadIs, IsValid, UpdatedAt,
  UpdatedUnder, OnlyAt,
}
use fox.Node.Edges.{
  in_statics-Holds, in_statics-Misses, in_statics-put, in_statics-insert, in_statics-delete,
}
use fox.Node.Edges.Valid.{
  nth-IsValid, Sorted-put, Sorted-insert, Sorted-delete, AreStatics-put, AreStatics-insert,
  AreStatics-delete, get_static_edge-some, get_static_edge-none,
}

pub HeadIs-cons : (l : ℕ) (k : Bytes) → HeadIs l k → (t : Bytes) × (k ≡ l ∷ t)
HeadIs-cons l [] h = elim h [ ]
HeadIs-cons l (x ∷ k) h = (k, ap (λ y. y ∷ k) h)

pub strip-append : (k : Bytes) (w : List Sym) → strip k (syms k ++ w) ≡ some w
strip-append [] w = refl
strip-append (c ∷ k) w = ground (arith, strip-append k w)

pub strip-some : (k : Bytes) (w w' : List Sym) → strip k w ≡ some w' → w ≡ syms k ++ w'
strip-some [] w w' h = ground arith
strip-some (c ∷ k) [] w' h = ground arith
strip-some (c ∷ k) (byte b ∷ w) w' h = ground (arith, strip-some k w w')
strip-some (c ∷ k) (par _ ∷ w) w' h = ground arith
strip-some (c ∷ k) (wild _ ∷ w) w' h = ground arith

tail_eq : {s t : Sym} {v w : List Sym} → s ∷ v ≡ t ∷ w → v ≡ w
tail_eq h = cc

module _ {M : Type 0} where
  pub under-key : (c : Node M) (w : List Sym) → under c (syms (key c) ++ w) ≡ routes_at c w
  under-key c w = rw (under, strip-append (key c) w) refl

  -- An update below a child whose key stays.
  pub UpdatedAt-under :
      (c d : Node M) (p : List Sym) (rs : List (Route M))
      → head d ≡ head c
      → UpdatedAt c d p rs
      → UpdatedUnder c d (syms (key c) ++ p) rs
  UpdatedAt-under c d p rs e (at, off) = (
    rw (under, e, strip-append (key c) p) at,
    λ w n. elim (Option-cases (strip (key c) w)) [
      | inl q ↦ rw (under, e, q) refl
      | inr (w', q) ↦
          rw (under, e, q)
            (off w' (λ r. n (strip-some (key c) w w' q ∙ ap (λ t. syms (key c) ++ t) r)))
    ],
  )

  -- The child found is valid, and holds the paths that begin with its label.
  pub get_static_edge-IsValid :
      (n : Node M) (c idx : ℕ) (child : Node M)
      → IsValid n
      → get_static_edge n c ≡ some (idx, child)
      → HeadIs c (key child)
        × IsValid child
        × (label child ≡ c)
        × ((w : List Sym) → routes_at n (byte c ∷ w) ≡ under child (byte c ∷ w))
  get_static_edge-IsValid (node h rs st ps ws) c idx child v e =
      let (i, (q, l)) = get_static_edge-some (node h rs st ps ws) c idx child v.0 e in
      let (k, u) = nth-IsValid st (lower st c) child v.1 q in
      (rw l at k, u, l, λ w. in_statics-Holds st c child w v.0 v.1 (q, l))

  pub get_static_edge-absent :
      (n : Node M) (c : ℕ) (w : List Sym)
      → IsValid n
      → get_static_edge n c ≡ none
      → routes_at n (byte c ∷ w) ≡ []
  get_static_edge-absent (node h rs st ps ws) c w v e =
      in_statics-Misses st c w v.0 v.1 (get_static_edge-none (node h rs st ps ws) c v.0 e)

  -- Statics that differ at one first byte.
  lift_update :
      (n : Node M) (st : Nodes M) (F : List Sym → List (Route M)) (c : ℕ) (p : List Sym)
      (rs : List (Route M))
      → ((b : ℕ) (w : List Sym)
          → in_statics st (byte b ∷ w)
            ≡ (if b == c then F w else in_statics (statics n) (byte b ∷ w)))
      → F p ≡ rs
      → ((w : List Sym) → w ≢ p → F w ≡ in_statics (statics n) (byte c ∷ w))
      → UpdatedAt n (with_statics n st) (byte c ∷ p) rs
  lift_update (node h rts st ps ws) st' F c p rs f at off = (ground (arith, f c p), elsewhere)
    where
      elsewhere :
          (w : List Sym)
          → w ≢ byte c ∷ p
          → routes_at (node h rts st' ps ws) w ≡ routes_at (node h rts st ps ws) w
      elsewhere [] n = refl
      elsewhere (par k ∷ w) n = refl
      elsewhere (wild k ∷ w) n = refl
      elsewhere (byte b ∷ w) n = elim (Bool-cases (b == c)) [
        | inl q ↦
            let e : b ≡ c = (==_iff b c).0 q in rw (f b w, q, e) (off w (λ r. n (rw (e, r) refl)))
        | inr q ↦ rw (f b w, q) refl
      ]

  -- A child written back in its place.
  pub put_update :
      (n : Node M) (c idx : ℕ) (child d : Node M) (p : List Sym) (rs : List (Route M))
      → IsValid n
      → get_static_edge n c ≡ some (idx, child)
      → label d ≡ c
      → HeadIs c (key d)
      → IsValid d
      → UpdatedUnder child d (byte c ∷ p) rs
      → IsValid (with_statics n (put (statics n) idx d))
        × UpdatedAt n (with_statics n (put (statics n) idx d)) (byte c ∷ p) rs
  put_update (node h rts st ps ws) c idx child d p rs v e l k u (at, off) =
      let (i, q) = get_static_edge-some (node h rts st ps ws) c idx child v.0 e in
      rw i (
        (
          Sorted-put st c child d v.0 q l,
          AreStatics-put st (lower st c) d v.1 (rw l k) u,
          v.2,
          v.3,
        ),
        lift_update (node h rts st ps ws) (put st (lower st c) d) (λ w. under d (byte c ∷ w)) c p rs
            (λ b w. in_statics-put st c b child d w v.0 v.1 q k) at
            (λ w m.
              off (byte c ∷ w) (λ r. m (tail_eq r))
              ∙ sym (in_statics-Holds st c child w v.0 v.1 q)),
      )

  -- A new child.
  pub add_update :
      (n : Node M) (c : ℕ) (d : Node M) (p : List Sym) (rs : List (Route M))
      → IsValid n
      → get_static_edge n c ≡ none
      → label d ≡ c
      → HeadIs c (key d)
      → IsValid d
      → OnlyAt d (byte c ∷ p) rs
      → IsValid (add_static_edge n d) × UpdatedAt n (add_static_edge n d) (byte c ∷ p) rs
  unfolding add_static_edge
  add_update (node h rts st ps ws) c d p rs v e l k u (at, off) =
      let m = get_static_edge-none (node h rts st ps ws) c v.0 e in
      rw (l, label_index-lower st c v.0)
        (
          (
            Sorted-insert st c d v.0 m l,
            AreStatics-insert st (lower st c) d v.1 (rw l k) u,
            v.2,
            v.3,
          ),
          lift_update (node h rts st ps ws) (insert_at st (lower st c) d)
              (λ w. under d (byte c ∷ w)) c p rs (λ b w. in_statics-insert st c b d w v.0 v.1 m k)
              at
              (λ w r.
                off (byte c ∷ w) (λ t. r (tail_eq t)) ∙ sym (in_statics-Misses st c w v.0 v.1 m)),
        )

  -- A child taken away that holds one path.
  pub delete_update :
      (n : Node M) (c idx : ℕ) (child : Node M) (p : List Sym)
      → IsValid n
      → get_static_edge n c ≡ some (idx, child)
      → ((w : List Sym) → w ≢ byte c ∷ p → under child w ≡ [])
      → IsValid (del_static_edge n c) × UpdatedAt n (del_static_edge n c) (byte c ∷ p) []
  unfolding del_static_edge
  delete_update (node h rts st ps ws) c idx child p v e off =
      let (i, q) = get_static_edge-some (node h rts st ps ws) c idx child v.0 e in
      rw (del_static_edge, e, i)
        (
          (Sorted-delete st (lower st c) v.0, AreStatics-delete st (lower st c) v.1, v.2, v.3),
          lift_update (node h rts st ps ws) (delete_at st (lower st c)) (λ w. []) c p []
              (λ b w. in_statics-delete st c b child w v.0 v.1 q) refl
              (λ w r.
                sym (
                  in_statics-Holds st c child w v.0 v.1 q ∙ off (byte c ∷ w) (λ t. r (tail_eq t)))),
        )
