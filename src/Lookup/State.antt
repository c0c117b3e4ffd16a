-- ===== src/Lookup/State.antt =====
-- node.go: the local variables of lookupByPath, the skip stack, and where the walk goes on. `search`
-- is the text behind `chars_matched`, and the skip stack is that above `stackOffset`, its top first.
use fox.Prelude.{
  ℕ, zero, suc, ◌+◌, ◌-◌, Bool, true, false, ◌&&◌, Option, none, some, List, [], ◌∷◌, ◌++◌,
  if◌then◌else◌, length, take, drop, leb, ltb, Bytes, beq,
}
use fox.Node.{Node, Nodes, nil, cons}
use fox.Lookup.{LookupState}

pub record SkipNode (M : Type 0) : Type 0 where
  pub node : Node M
  pub parent : Option (Node M)
  pub chars_matched : ℕ
  pub param_cnt : ℕ
  pub child_param_idx : ℕ
  pub child_wildcard_idx : ℕ
  pub wildcard_offset : ℕ

-- `captured` are the parameters of the context, and `memo` is its lookup state.
pub record PathWalk (M E : Type 0) : Type 0 where
  pub matched : Node M
  pub parent : Option (Node M)
  pub chars_matched : ℕ
  pub skip_static : Bool
  pub child_param_idx : ℕ
  pub child_wildcard_idx : ℕ
  pub wildcard_offset : ℕ
  pub stack : List (SkipNode M)
  pub captured : List Bytes
  pub memo : LookupState M E

pub record Found (M : Type 0) : Type 0 where
  pub index : ℕ
  pub node : Node M
  pub tsr : Bool
  pub captured : List Bytes

-- `nested_outside` is the panic of outermostInfix, and `scan_out_of_fuel` no answer of the code.
pub data Answer (M : Type 0) : Type 0 where
  found : Found M → Answer M
  missed : Answer M
  nested_outside : Answer M
  scan_out_of_fuel : Answer M

-- The labels Walk, VM and Backtrack, and the return.
pub data Goto (M E : Type 0) : Type 0 where
  walk : PathWalk M E → Goto M E
  vm : PathWalk M E → Goto M E
  backtrack : PathWalk M E → Goto M E
  finish : Answer M → LookupState M E → Goto M E

-- A part of the walk goes elsewhere, or falls through to the next.
pub data Try (M E : Type 0) : Type 0 where
  went : Goto M E → Try M E
  fell : PathWalk M E → Try M E

abbrev pub is_none : {A : Type 0} → Option A → Bool
is_none none = true
is_none (some a) = false

unfoldable pub has_suffix : Bytes → Bytes → Bool
has_suffix s suffix =
    leb (length suffix) (length s) && beq (drop (length s - length suffix) s) suffix

-- `cs[i:]`
abbrev pub drop_nodes : {M : Type 0} → ℕ → Nodes M → Nodes M
drop_nodes zero cs = cs
drop_nodes (suc i) nil = nil
drop_nodes (suc i) (cons c cs) = drop_nodes i cs

abbrev pub no_nodes : {M : Type 0} → Nodes M → Bool
no_nodes nil = true
no_nodes (cons c cs) = false

-- Values are recorded unless the lookup is lazy.
abbrev pub record_param : Bool → List Bytes → Bytes → List Bytes
record_param true captured v = captured
record_param false captured v = captured ++ v ∷ []

module _ {M : Type 0} where
  abbrev pub push_when : Bool → SkipNode M → List (SkipNode M) → List (SkipNode M)
  push_when true f stack = f ∷ stack
  push_when false f stack = stack

  -- outermostInfix: the lowest skip node of an infix capture, and the stack below it.
  unfoldable pub outermost_infix : List (SkipNode M) → Option (SkipNode M × List (SkipNode M))
  outermost_infix [] = none
  outermost_infix (f ∷ fs) = elim (outermost_infix fs) [
    | some p ↦ some p
    | none ↦ if ltb 0 f.wildcard_offset then some (f, fs) else none
  ]

module _ {M E : Type 0} where
  unfoldable pub start_at : Node M → List Bytes → LookupState M E → PathWalk M E
  start_at root captured memo = record {
    matched = root;
    parent = none;
    chars_matched = 0;
    skip_static = false;
    child_param_idx = 0;
    child_wildcard_idx = 0;
    wildcard_offset = 0;
    stack = [];
    captured = captured;
    memo = memo;
  }

  abbrev pub skip_node : PathWalk M E → ℕ → ℕ → ℕ → SkipNode M
  skip_node s param_idx wildcard_idx offset = record {
    node = s.matched;
    parent = s.parent;
    chars_matched = s.chars_matched;
    param_cnt = length s.captured;
    child_param_idx = param_idx;
    child_wildcard_idx = wildcard_idx;
    wildcard_offset = offset;
  }

  abbrev pub push_if : Bool → PathWalk M E → SkipNode M → PathWalk M E
  push_if test s f = record s { stack = push_when test f s.stack }

  abbrev pub with_memo : PathWalk M E → LookupState M E → PathWalk M E
  with_memo s memo = record s { memo = memo }

  -- The walk goes on at a child, behind `n` more bytes; the indices stay.
  abbrev pub step_into : PathWalk M E → Node M → ℕ → List Bytes → PathWalk M E
  step_into s child n captured = record s {
    matched = child;
    parent = some s.matched;
    chars_matched = s.chars_matched + n;
    captured = captured;
  }

  -- The variables that a skip node saved.
  abbrev pub resume : PathWalk M E → SkipNode M → List (SkipNode M) → PathWalk M E
  resume s f rest = record {
    matched = f.node;
    parent = f.parent;
    chars_matched = f.chars_matched;
    skip_static = true;
    child_param_idx = f.child_param_idx;
    child_wildcard_idx = f.child_wildcard_idx;
    wildcard_offset = f.wildcard_offset;
    stack = rest;
    captured = take f.param_cnt s.captured;
    memo = s.memo;
  }
