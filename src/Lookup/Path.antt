-- ===== src/Lookup/Path.antt =====
-- node.go: lookupByPath, its loop. Fuel: each jump to a label takes one unit. The Pike VM of
-- pikevm.go, to which a nested wildcard with an expression gives over, is the argument `run`.
use fox.Prelude.{ℕ, zero, suc, Bool, Option, none, some, List, [], ◌∷◌, take, Bytes}
use fox.Node.{Node}
use fox.Lookup.{Library, LookupState}
use fox.Lookup.State.{
  SkipNode, PathWalk, Found, Answer, found, nested_outside, Goto, walk, vm, backtrack, finish, went,
  fell, start_at, outermost_infix,
}
use fox.Lookup.Step.{search_of, try_static, try_params, end_of_path, back}
use fox.Lookup.Wildcards.{try_wildcards}

-- vm.run(method, path, path, c, lazy, f), with the parameters and the lookup state of the context.
abbrev pub VmRun : Type 0 → Type 0 → Type 0
VmRun M E = SkipNode M → List Bytes → LookupState M E → Option (Found M) × LookupState M E

module _ {M E : Type 0} (lib : Library M E) (run : VmRun M E) (method : Bytes) (lazy : Bool) where
  unfoldable pub vm_step : PathWalk M E → Goto M E
  unfolding outermost_infix
  vm_step s = elim (outermost_infix s.stack) [
    | none ↦ finish nested_outside s.memo
    | some (f, rest) ↦
        let captured = take f.param_cnt s.captured in
        let (r, memo) = run f captured s.memo in
        elim r [
          | some x ↦ finish (found x) memo
          | none ↦ backtrack (record s {
            matched = f.node;
            chars_matched = f.chars_matched;
            stack = rest;
            captured = captured;
            memo = memo;
          })
        ]
  ]

  abbrev pub or_params : Node M → Bytes → PathWalk M E → Goto M E
  or_params root path s = elim (try_params lib method lazy root path s) [
    | went g ↦ g
    | fell s' ↦ try_wildcards lib method lazy path root s'
  ]

  unfoldable pub round : Node M → Bytes → PathWalk M E → Goto M E
  unfolding try_static try_params try_wildcards end_of_path
  round root path s = elim (search_of path s) [
    | [] ↦ end_of_path lib method lazy path s
    | c ∷ rest ↦ elim (try_static lib method lazy root path s) [
      | went g ↦ g
      | fell s' ↦ or_params root path s'
    ]
  ]

  unfoldable pub path_step : Node M → Bytes → Goto M E → Goto M E
  unfolding round vm_step back
  path_step root path (walk s) = round root path s
  path_step root path (vm s) = vm_step s
  path_step root path (backtrack s) = back lib method lazy path s
  path_step root path (finish a memo) = finish a memo

  -- `none` means that the fuel ran out.
  unfoldable pub lookup_loop : ℕ → Node M → Bytes → Goto M E → Option (Answer M × LookupState M E)
  unfolding path_step
  lookup_loop zero root path g = none
  lookup_loop (suc f) root path (finish a memo) = some (a, memo)
  lookup_loop (suc f) root path (walk s) = lookup_loop f root path (path_step root path (walk s))
  lookup_loop (suc f) root path (vm s) = lookup_loop f root path (path_step root path (vm s))
  lookup_loop (suc f) root path (backtrack s) =
      lookup_loop f root path (path_step root path (backtrack s))

  unfoldable pub lookup_by_path :
      ℕ → Node M → Bytes → List Bytes → LookupState M E → Option (Answer M × LookupState M E)
  unfolding lookup_loop start_at
  lookup_by_path fuel root path captured memo =
      lookup_loop fuel root path (walk (start_at root captured memo))
