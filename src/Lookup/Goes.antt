-- ===== src/Lookup/Goes.antt =====
-- lookupByPath: what holds of the walk at its labels, and where a round may go.
pub mod Leaf
pub mod Statics
pub mod Params
pub mod Wildcards
pub mod Last
pub mod Rounds
use fox.Prelude.{
  ℕ, zero, suc, ◌+◌, ◌-◌, ◌≤◌, ◌<◌, ◌≡◌, ◌⊎◌, inl, inr, refl, sym, ap, ◌∙◌, Bool, true, false,
  Option, none, some, List, [], ◌∷◌, ◌++◌, arith, length, take, Bytes, append-nil, append_assoc,
}
use fox.Node.{Node, count, params, wildcards}
use fox.Node.Content.{IsValid}
use fox.Lookup.{Library, LookupState}
use fox.Lookup.State.{
  SkipNode, PathWalk, Found, Answer, found, missed, nested_outside, scan_out_of_fuel, Goto, walk,
  vm, backtrack, finish, skip_node, record_param,
}
use fox.Lookup.Trail.{Trail, Recorded, IsAnswer, IsPlain}

pub Recorded-append :
    (lazy : Bool) (before vs captured : List Bytes) (v : Bytes)
    → Recorded lazy before vs captured
    → Recorded lazy before (vs ++ v ∷ []) (record_param lazy captured v)
Recorded-append true before vs captured v h = h
Recorded-append false before vs captured v h =
    ap (λ c. c ++ v ∷ []) h ∙ append_assoc before vs (v ∷ [])

abbrev pub Grows : List Bytes → List Bytes → Type 0
Grows captured captured' = (tl : List Bytes) × (captured' ≡ captured ++ tl)

pub Grows-record :
    (lazy : Bool) (captured : List Bytes) (v : Bytes)
    → Grows captured (record_param lazy captured v)
Grows-record true captured v = ([], sym (append-nil captured))
Grows-record false captured v = (v ∷ [], refl)

-- What is left to try at a node: its static child, the parameters and the wildcards.
abbrev pub todo : {M : Type 0} → Bool → ℕ → ℕ → Node M → ℕ
todo true a b n = (count (params n) - a) + (count (wildcards n) - b)
todo false a b n = suc ((count (params n) - a) + (count (wildcards n) - b))

module _ {M E : Type 0} (lib : Library M E) (method : Bytes) (lazy : Bool) (root : Node M)
    (path : Bytes) (before : List Bytes) where
  -- The node is where the trail over the first `k` bytes leads, and the captures are recorded.
  abbrev pub IsHere : Option (Node M) → Node M → ℕ → List Bytes → Type 0
  IsHere up n k captured =
      (vs : List Bytes) × Trail lib root up n (take k path) vs
      × Recorded lazy before vs captured
      × (k ≤ length path)
      × IsValid n
      × IsPlain n

  abbrev pub IsAt : PathWalk M E → Type 0
  IsAt s = IsHere s.parent s.matched s.chars_matched s.captured

  -- The indices of the wildcards are zero while parameters are left, and all before the static child.
  abbrev pub AreInOrder : Node M → Bool → ℕ → ℕ → ℕ → Type 0
  AreInOrder n skip a b c =
      ((skip ≡ false) → (a ≡ 0) × (b ≡ 0) × (c ≡ 0)) × (a < count (params n) → (b ≡ 0) × (c ≡ 0))

  abbrev pub IsReady : PathWalk M E → Type 0
  IsReady s =
      IsAt s
      × AreInOrder s.matched s.skip_static s.child_param_idx s.child_wildcard_idx s.wildcard_offset

  -- A skip node leaves less to try at its node, or a later end of the same capture.
  abbrev pub IsSooner : PathWalk M E → ℕ → ℕ → ℕ → Type 0
  IsSooner s a b c =
      AreInOrder s.matched true a b c
      × ((todo true a b s.matched
            < todo s.skip_static s.child_param_idx s.child_wildcard_idx s.matched)
          ⊎ ((todo true a b s.matched
                ≤ todo s.skip_static s.child_param_idx s.child_wildcard_idx s.matched)
              × (s.wildcard_offset < c)
              × (c ≤ suc (length path))))

  abbrev pub IsKept : PathWalk M E → List (SkipNode M) → Type 0
  IsKept s stack =
      (stack ≡ s.stack)
      ⊎ ((a : ℕ) × (b : ℕ) × (c : ℕ) × (stack ≡ skip_node s a b c ∷ s.stack) × IsSooner s a b c)

  -- Where a round from `s` may go.
  pub data Goes (s : PathWalk M E) : Goto M E → Type 0 where
    ended :
        (f : Found M) (memo : LookupState M E)
        → IsAnswer lib root method path lazy before f
        → Goes s (finish (found f) memo)
    backs :
        (s' : PathWalk M E)
        → IsKept s s'.stack
        → Grows s.captured s'.captured
        → IsAt s'
        → Goes s (backtrack s')
    walks :
        (s' : PathWalk M E)
        → IsKept s s'.stack
        → Grows s.captured s'.captured
        → IsReady s'
        → s.chars_matched < s'.chars_matched
        → Goes s (walk s')

  abbrev pub IsRight : Answer M → Type 0
  IsRight (found f) = IsAnswer lib root method path lazy before f
  IsRight missed = Unit
  IsRight nested_outside = ⊥
  IsRight scan_out_of_fuel = ⊥
