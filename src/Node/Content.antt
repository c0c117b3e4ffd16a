-- ===== src/Node/Content.antt =====
-- What a routing tree holds, as a function of the path of bytes, parameters and wildcards from its
-- root: the view in which insertion and deletion are specified. It reads keys only, so it does not
-- depend on how the keys are cut into nodes, nor on labels and search order.
use fox.Prelude.{ℕ, ◌≡◌, ◌≢◌, Option, none, some, List, [], ◌∷◌, ◌==◌, if◌then◌else◌, Bytes, beq}
use fox.Route.{Route}
use fox.Node.{Node, Nodes, node, nil, cons, label, key}
use fox.Node.Search.{SortedLabels}

-- One step of a path: a byte, or the key of a parameter or of a wildcard.
pub data Sym : Type 0 where
  byte : ℕ → Sym
  par : Bytes → Sym
  wild : Bytes → Sym

abbrev pub syms : Bytes → List Sym
syms [] = []
syms (b ∷ k) = byte b ∷ syms k

-- What is left of a path behind the bytes `k`.
abbrev pub strip : Bytes → List Sym → Option (List Sym)
strip [] w = some w
strip (c ∷ k) [] = none
strip (c ∷ k) (byte b ∷ w) = if b == c then strip k w else none
strip (c ∷ k) (par _ ∷ w) = none
strip (c ∷ k) (wild _ ∷ w) = none

-- The key of a static node begins with its label.
abbrev pub HeadIs : ℕ → Bytes → Type 0
HeadIs l [] = ⊥
HeadIs l (x ∷ k) = x ≡ l

module _ {M : Type 0} where
  abbrev mutual
    pub routes_at : Node M → List Sym → List (Route M)
    routes_at (node h rs st ps ws) [] = rs
    routes_at (node h rs st ps ws) (byte b ∷ w) = in_statics st (byte b ∷ w)
    routes_at (node h rs st ps ws) (par k ∷ w) = in_keyed ps k w
    routes_at (node h rs st ps ws) (wild k ∷ w) = in_keyed ws k w

    pub in_statics : Nodes M → List Sym → List (Route M)
    in_statics nil w = []
    in_statics (cons c cs) w = elim (strip (key c) w) [
      | none ↦ in_statics cs w
      | some w' ↦ routes_at c w'
    ]

    pub in_keyed : Nodes M → Bytes → List Sym → List (Route M)
    in_keyed nil k w = []
    in_keyed (cons c cs) k w = if beq (key c) k then routes_at c w else in_keyed cs k w

  -- The routes of a child reached by its key.
  abbrev pub under : Node M → List Sym → List (Route M)
  under c w = elim (strip (key c) w) [ none ↦ [] | some w' ↦ routes_at c w' ]

  -- No child has this key.
  abbrev pub LacksKey : Bytes → Nodes M → Type 0
  LacksKey k nil = Unit
  LacksKey k (cons c cs) = (key c ≢ k) × LacksKey k cs

  abbrev mutual
    -- Statics have keys that begin with their labels, in increasing order; the keys of parameters
    -- and of wildcards are distinct.
    pub IsValid : Node M → Type 0
    IsValid (node h rs st ps ws) = SortedLabels st × AreStatics st × AreKeyed ps × AreKeyed ws

    pub AreStatics : Nodes M → Type 0
    AreStatics nil = Unit
    AreStatics (cons c cs) = HeadIs (label c) (key c) × IsValid c × AreStatics cs

    pub AreKeyed : Nodes M → Type 0
    AreKeyed nil = Unit
    AreKeyed (cons c cs) = LacksKey (key c) cs × IsValid c × AreKeyed cs

module _ {M : Type 0} where
  -- `n'` holds `rs` at the path `p`, and elsewhere what `n` holds.
  abbrev pub UpdatedAt : Node M → Node M → List Sym → List (Route M) → Type 0
  UpdatedAt n n' p rs =
      (routes_at n' p ≡ rs) × ((w : List Sym) → w ≢ p → routes_at n' w ≡ routes_at n w)

  -- The same of a child, its key included.
  abbrev pub UpdatedUnder : Node M → Node M → List Sym → List (Route M) → Type 0
  UpdatedUnder c d p rs = (under d p ≡ rs) × ((w : List Sym) → w ≢ p → under d w ≡ under c w)

  -- A child that holds `rs` at `p` and nothing else.
  abbrev pub OnlyAt : Node M → List Sym → List (Route M) → Type 0
  OnlyAt d p rs = (under d p ≡ rs) × ((w : List Sym) → w ≢ p → under d w ≡ [])
