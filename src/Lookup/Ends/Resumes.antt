-- ===== src/Lookup/Ends/Resumes.antt =====
-- lookupByPath ends: what a skip node leads to.
use fox.Prelude.{
  ℕ, suc, ◌<◌, ◌≡◌, inl, inr, refl, sym, subst, ap, ◌∙◌, Bool, true, ◌&&◌, not, Option, none, some,
  List, [], ◌∷◌, ◌++◌, arith, length, take, take-length_append, Bytes, beq, Bool-cases,
  append_assoc,
}
use fox.Node.{Node}
use fox.Lookup.{Library, LookupState}
use fox.Lookup.State.{
  SkipNode, PathWalk, Found, Answer, found, missed, Goto, walk, backtrack, finish, skip_node,
  resume, with_memo, has_suffix,
}
use fox.Lookup.Step.{slash, search_of, leaf_match, parent_allows, or_else, pop, back}
use fox.Lookup.Path.{VmRun, round, path_step, lookup_loop}
use fox.Lookup.Goes.{Grows, IsAt, IsReady, IsSooner, IsKept, Goes, ended, backs, walks, IsRight}
use fox.Lookup.Goes.Leaf.{IfFound, IsFound}
use fox.Lookup.Goes.Last.{back-IfFound}

module _ {M E : Type 0} (lib : Library M E) (run : VmRun M E) (method : Bytes) (lazy : Bool)
    (root : Node M) (path : Bytes) (before : List Bytes) where
  -- With enough fuel the loop gives a right answer.
  abbrev pub Ends : Goto M E → Type 0
  Ends g =
      (fuel : ℕ) × (a : Answer M) × (memo : LookupState M E) × (lookup_loop lib run method lazy fuel
          root path g
        ≡ some (a, memo))
      × IsRight lib method lazy root path before a

  pub Ends-walk : (s : PathWalk M E) → Ends (round lib run method lazy root path s) → Ends (walk s)
  unfolding lookup_loop path_step
  Ends-walk s (f, a, m, e, r) = (suc f, a, m, e, r)

  Ends-backtrack : (s : PathWalk M E) → Ends (back lib method lazy path s) → Ends (backtrack s)
  unfolding lookup_loop path_step
  Ends-backtrack s (f, a, m, e, r) = (suc f, a, m, e, r)

  Ends-finish :
      (a : Answer M) (memo : LookupState M E)
      → IsRight lib method lazy root path before a
      → Ends (finish a memo)
  unfolding lookup_loop
  Ends-finish a memo r = (1, a, memo, refl, r)

  -- A walk that goes back to this stack, with these captures or more, ends.
  abbrev pub IsResumable : List Bytes → List (SkipNode M) → Type 0
  IsResumable captured stack =
      (s : PathWalk M E)
      → s.stack ≡ stack
      → Grows captured s.captured
      → IsAt lib method lazy root path before s
      → Ends (backtrack s)

  abbrev Now : PathWalk M E → Goto M E → Type 0
  Now = Goes lib method lazy root path before

  abbrev Ready : PathWalk M E → Type 0
  Ready = IsReady lib method lazy root path before

  or_else-Ends :
      (s : PathWalk M E) (k : PathWalk M E → Goto M E) (c : Option (Found M) × LookupState M E)
      → IfFound (IsFound lib method lazy root path before) c
      → ((m : LookupState M E) → Ends (k (with_memo s m)))
      → Ends (or_else s k c)
  or_else-Ends s k (some f, m) h g = Ends-finish (found f) m h
  or_else-Ends s k (none, m) h g = g m

  back-Ends :
      (s : PathWalk M E)
      → IsAt lib method lazy root path before s
      → ((m : LookupState M E) → Ends (pop (with_memo s m)))
      → Ends (backtrack s)
  unfolding back
  back-Ends s h g =
      Ends-backtrack s
        (elim (Bool-cases
          (beq (search_of path s) slash && not (has_suffix path (b'/' ∷ b'/' ∷ [])))) [
            | inr e ↦ rw (back, e) (g s.memo)
            | inl e ↦
                rw (back, e)
                  (or_else-Ends s pop
                    (leaf_match lib method lazy parent_allows true s.matched s.captured s.memo)
                    (back-IfFound lib method lazy root path before s h (ground (arith, e))
                      (ground (arith, e)))
                    g)
          ])

  -- The walk that a skip node saved.
  abbrev pub again : PathWalk M E → ℕ → ℕ → ℕ → LookupState M E → PathWalk M E
  again s a b c memo = record {
    matched = s.matched;
    parent = s.parent;
    chars_matched = s.chars_matched;
    skip_static = true;
    child_param_idx = a;
    child_wildcard_idx = b;
    wildcard_offset = c;
    stack = s.stack;
    captured = s.captured;
    memo = memo;
  }

  pop-Ends :
      (s : PathWalk M E) (stack : List (SkipNode M))
      → s.stack ≡ stack
      → Ends (elim stack as (λ _. Goto M E) [
        | [] ↦ finish missed s.memo
        | f ∷ rest ↦ walk (resume s f rest)
      ])
      → Ends (pop s)
  pop-Ends s stack e h =
      subst
        (λ st. Ends (elim st as (λ _. Goto M E) [
          | [] ↦ finish missed s.memo
          | f ∷ rest ↦ walk (resume s f rest)
        ]))
        (sym e) h

  pub nil-IsResumable : (captured : List Bytes) → IsResumable captured []
  nil-IsResumable captured s e g h =
      back-Ends s h (λ m. pop-Ends (with_memo s m) [] e (Ends-finish missed m tt))

  push-IsResumable :
      (s : PathWalk M E) (a b c : ℕ)
      → ((m : LookupState M E) → Ends (walk (again s a b c m)))
      → IsResumable s.captured (skip_node s a b c ∷ s.stack)
  push-IsResumable s a b c all s' e (tl, g) h = back-Ends s' h (λ m.
      pop-Ends (with_memo s' m) (skip_node s a b c ∷ s.stack) e
        (subst (λ cs. Ends (walk (record (again s a b c m) { captured = cs }))) (sym kept) (all m)))
    where
      kept : take (length s.captured) s'.captured ≡ s.captured
      kept = ap (λ cs. take (length s.captured) cs) g ∙ take-length_append s.captured tl

  grow-IsResumable :
      (captured captured' : List Bytes) (stack : List (SkipNode M))
      → IsResumable captured stack
      → Grows captured captured'
      → IsResumable captured' stack
  grow-IsResumable captured captured' stack r (tl, e) s q (tl', g) h =
      r s q (tl ++ tl', g ∙ ap (λ x. x ++ tl') e ∙ append_assoc captured tl tl') h

  kept-IsResumable :
      (s : PathWalk M E) (stack : List (SkipNode M))
      → IsResumable s.captured s.stack
      → ((a b c : ℕ) (m : LookupState M E)
          → IsSooner lib method lazy root path before s a b c
          → Ends (walk (again s a b c m)))
      → IsKept lib method lazy root path before s stack
      → IsResumable s.captured stack
  kept-IsResumable s stack r g (inl e) = subst (λ st. IsResumable s.captured st) (sym e) r
  kept-IsResumable s stack r g (inr (a, b, c, e, h)) =
      subst (λ st. IsResumable s.captured st) (sym e) (push-IsResumable s a b c (λ m. g a b c m h))

  pub Goes-Ends :
      (s : PathWalk M E) (g : Goto M E)
      → Now s g
      → IsResumable s.captured s.stack
      → ((a b c : ℕ) (m : LookupState M E)
          → IsSooner lib method lazy root path before s a b c
          → Ends (walk (again s a b c m)))
      → ((s' : PathWalk M E)
          → Ready s'
          → s.chars_matched < s'.chars_matched
          → IsResumable s'.captured s'.stack
          → Ends (walk s'))
      → Ends g
  Goes-Ends s _ (ended f m h) r sooner deeper = Ends-finish (found f) m h
  Goes-Ends s _ (backs s' k g h) r sooner deeper =
      kept-IsResumable s s'.stack r sooner k s' refl g h
  Goes-Ends s _ (walks s' k g h l) r sooner deeper =
      deeper s' h l (
        grow-IsResumable s.captured s'.captured s'.stack (kept-IsResumable s s'.stack r sooner k) g)
