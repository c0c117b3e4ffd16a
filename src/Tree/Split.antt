-- ===== src/Tree/Split.antt =====
-- Cutting the key of a child in two: the fork that takes its place holds what the child held.
use mathlib.Core.Option
use fox.Prelude.{
  drop-length_append, ℕ, ◌≡◌, ◌≢◌, refl, ap, ◌∙◌, Bool, false, none, some, List, [], ◌∷◌, ◌++◌, inl,
  inr, arith, Option-cases, Bytes, get_or, length, append-nil,
}
use fox.Route.{Route}
use fox.Node.{
  Head, Node, Nodes, node, nil, cons, label, key, head, statics, with_head, with_statics, put,
  label_index, search_first, get_static_edge, add_static_edge, replace_static_edge,
}
use fox.Node.Content.{
  Sym, byte, par, wild, syms, strip, routes_at, in_statics, under, HeadIs, IsValid, UpdatedUnder,
  OnlyAt,
}
use fox.Node.Edges.Update.{strip-append, strip-some, UpdatedAt-under, add_update}
use fox.Tree.{ok, static_node, cut_child, replace_edge}
use fox.Tree.Prefix.{Part}

pub syms-append : (a b : Bytes) → syms (a ++ b) ≡ syms a ++ syms b
syms-append [] b = refl
syms-append (x ∷ a) b = ap (λ t. byte x ∷ t) (syms-append a b)

strip-concat :
    (p r : Bytes) (w : List Sym)
    → strip (p ++ r) w ≡ elim (strip p w) [ none ↦ none | some w' ↦ strip r w' ]
strip-concat [] r w = refl
strip-concat (c ∷ p) r [] = refl
strip-concat (c ∷ p) r (byte b ∷ w) = ground (arith, strip-concat p r w)
strip-concat (c ∷ p) r (par _ ∷ w) = refl
strip-concat (c ∷ p) r (wild _ ∷ w) = refl

-- A path that parts from a key does not fit it.
strip-Part : (x : ℕ) (r1 r2 : Bytes) → Part r1 (x ∷ r2) → strip (x ∷ r2) (syms r1) ≡ none
strip-Part x [] r2 h = refl
strip-Part x (y ∷ r1) r2 h = ground arith

get_or-append : (p r : Bytes) (x : ℕ) → get_or (p ++ x ∷ r) (length p) 0 ≡ x
get_or-append [] r x = refl
get_or-append (y ∷ p) r x = get_or-append p r x

module _ {M : Type 0} where
  -- A leaf holds its routes at its key and nothing elsewhere.
  pub leaf-OnlyAt :
      (k : Bytes) (host : Bool) (rs : List (Route M)) → OnlyAt (static_node k host rs) (syms k) rs
  leaf-OnlyAt k host rs = (
    rw (under, rw append-nil at (strip-append k [])) refl,
    λ w n. elim (Option-cases (strip k w)) [
      | inl q ↦ rw (under, q) refl
      | inr (w', q) ↦
          rw (under, q) (only w' (λ e. n (strip-some k w w' q ∙ (rw (e, append-nil) refl))))
    ],
  )
    where
      only : (w' : List Sym) → w' ≢ [] → routes_at (static_node k host rs) w' ≡ []
      only [] n = absurd (n refl)
      only (byte b ∷ w) n = refl
      only (par b ∷ w) n = refl
      only (wild b ∷ w) n = refl

  -- The fork with the key `p` over a child whose key was `p ++ x ∷ r`.
  abbrev pub fork_of : Bytes → Bool → List (Route M) → ℕ → Bytes → Node M → Node M
  fork_of p host rs x r child =
      node (record { label = get_or p 0 0; key = p; regexp = none; host = host; nested = false }) rs
        (cons (with_head child (record (head child) { label = x; key = x ∷ r })) nil) nil nil

  pub cut_fork :
      (p r : Bytes) (host : Bool) (x : ℕ) (child : Node M)
      → key child ≡ p ++ x ∷ r
      → add_static_edge (static_node p host []) (cut_child child (length p))
        ≡ fork_of p host [] x r child
  unfolding add_static_edge label_index search_first cut_child
  cut_fork p r host x (node h rs st ps ws) e =
      rw (e, get_or-append p r x, drop-length_append p (x ∷ r)) refl

  -- What a node holds does not depend on its own key.
  pub routes_at-head :
      (g h : Head) (rs : List (Route M)) (st ps ws : Nodes M) (w : List Sym)
      → routes_at (node g rs st ps ws) w ≡ routes_at (node h rs st ps ws) w
  routes_at-head g h rs st ps ws [] = refl
  routes_at-head g h rs st ps ws (byte b ∷ w) = refl
  routes_at-head g h rs st ps ws (par b ∷ w) = refl
  routes_at-head g h rs st ps ws (wild b ∷ w) = refl

  in_statics_single : (d : Node M) (w : List Sym) → in_statics (cons d nil) w ≡ under d w
  in_statics_single d w = ground arith

  pub under-fork :
      (p r : Bytes) (host : Bool) (x : ℕ) (child : Node M) (w : List Sym)
      → key child ≡ p ++ x ∷ r
      → under (fork_of p host [] x r child) w ≡ under child w
  under-fork p r host x (node h rs st ps ws) w e = elim (Option-cases (strip p w)) [
    | inl q ↦ rw (under, e, strip-concat p (x ∷ r) w, q) refl
    | inr (w', q) ↦ rw (under, e, strip-concat p (x ∷ r) w, q) (inner w')
  ]
    where
      inner :
          (w' : List Sym)
          → routes_at (fork_of p host [] x r (node h rs st ps ws)) w'
            ≡ elim (strip (x ∷ r) w') [ none ↦ [] | some v ↦ routes_at (node h rs st ps ws) v ]
      inner [] = refl
      inner (byte b ∷ w) =
          in_statics_single (with_head (node h rs st ps ws) (record h { label = x; key = x ∷ r }))
            (byte b ∷ w)
          ∙ elim (Option-cases (strip (x ∷ r) (byte b ∷ w))) [
            | inl q ↦ rw (under, q) refl
            | inr (v, q) ↦
                rw (under, q) (routes_at-head (record h { label = x; key = x ∷ r }) h rs st ps ws v)
          ]
      inner (par b ∷ w) = refl
      inner (wild b ∷ w) = refl

  pub fork-IsValid :
      (p r : Bytes) (host : Bool) (rs : List (Route M)) (x : ℕ) (child : Node M)
      → IsValid child
      → IsValid (fork_of p host rs x r child)
  fork-IsValid p r host rs x (node h rts st ps ws) v = ((tt, tt), (refl, v, tt), tt, tt)

  -- With the new route at the fork itself.
  pub fork_here :
      (p r : Bytes) (host : Bool) (x : ℕ) (child : Node M) (rs : List (Route M))
      → key child ≡ p ++ x ∷ r
      → UpdatedUnder child (fork_of p host rs x r child) (syms p) rs
  fork_here p r host x child rs e = (
    rw (under, rw append-nil at (strip-append p [])) refl,
    λ w n. elim (Option-cases (strip p w)) [
      | inl q ↦ rw (← under-fork p r host x child w e, under, q) refl
      | inr (w', q) ↦
          rw (← under-fork p r host x child w e, under, q)
            (same w' (λ d. n (strip-some p w w' q ∙ rw (d, append-nil) refl)))
    ],
  )
    where
      same :
          (w' : List Sym)
          → w' ≢ []
          → routes_at (fork_of p host rs x r child) w' ≡ routes_at (fork_of p host [] x r child) w'
      same [] n = absurd (n refl)
      same (byte b ∷ w) n = refl
      same (par b ∷ w) n = refl
      same (wild b ∷ w) n = refl

  get_static_edge-fork :
      (p r : Bytes) (host : Bool) (rs : List (Route M)) (x y : ℕ) (child : Node M)
      → y ≢ x
      → get_static_edge (fork_of p host rs x r child) y ≡ none
  unfolding get_static_edge label_index search_first
  get_static_edge-fork p r host rs x y (node h rts st ps ws) n = ground arith

  -- With a new child of the fork, whose key begins with another byte.
  pub fork_there :
      (p r : Bytes) (host : Bool) (x y : ℕ) (child d : Node M) (q : List Sym) (rs : List (Route M))
      → key child ≡ p ++ x ∷ r
      → y ≢ x
      → IsValid child
      → label d ≡ y
      → HeadIs y (key d)
      → IsValid d
      → OnlyAt d (byte y ∷ q) rs
      → let fork = add_static_edge (fork_of p host [] x r child) d in
        IsValid fork × UpdatedUnder child fork (syms p ++ byte y ∷ q) rs
  fork_there p r host x y child d q rs e n v l k u o =
      let base = fork_of p host [] x r child in
      let (a, b) =
        add_update base y d q rs (fork-IsValid p r host [] x child v)
          (get_static_edge-fork p r host [] x y child n) l k u o in
      let (at, off) =
        UpdatedAt-under base (add_static_edge base d) (byte y ∷ q) rs
          (unfold add_static_edge in refl) b in
      (a, (at, λ w m. off w m ∙ under-fork p r host x child w e))

  replace_static_edge-some :
      (n : Node M) (idx : ℕ) (child d : Node M)
      → get_static_edge n (label d) ≡ some (idx, child)
      → replace_static_edge n d ≡ some (with_statics n (put (statics n) idx d))
  unfolding replace_static_edge
  replace_static_edge-some n idx child d e =
      ap (Option.map (λ p. with_statics n (put (statics n) p.0 d))) e

  -- replaceStaticEdge in the place of the child that has the same first byte.
  pub replace_edge_lem :
      (n : Node M) (c idx : ℕ) (child d : Node M)
      → get_static_edge n c ≡ some (idx, child)
      → label d ≡ c
      → replace_edge n d ≡ ok (with_statics n (put (statics n) idx d))
  unfolding replace_edge
  replace_edge_lem n c idx child d e l =
      rw (replace_edge, replace_static_edge-some n idx child d (rw l e)) refl

  -- A path that parts from the key of a child inside that key is not held.
  pub under-Part :
      (p r1 r : Bytes) (x : ℕ) (child : Node M)
      → key child ≡ p ++ x ∷ r
      → Part r1 (x ∷ r)
      → under child (syms p ++ syms r1) ≡ []
  under-Part p r1 r x child e d =
      rw (under, e, strip-concat p (x ∷ r), strip-append p (syms r1), strip-Part x r1 r d) refl
