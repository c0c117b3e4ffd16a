-- ===== src/Lookup/Ends.antt =====
-- lookupByPath ends, and what it answers is right.
mod Resumes
use fox.Prelude.{
  ℕ, zero, suc, ◌+◌, ◌-◌, ◌<◌, ◌≡◌, inl, inr, refl, sym, subst, ap, ◌∙◌, Bool, true, false, ◌&&◌,
  not, Option, none, some, List, [], ◌∷◌, ◌++◌, arith, length, length-drop, take,
  take-length_append, Bytes, beq, Bool-cases, List-cases, append-nil, append_assoc,
}
use fox.Node.{Node}
use fox.Node.Content.{IsValid}
use fox.Lookup.{Library, LookupState}
use fox.Lookup.State.{
  SkipNode, PathWalk, Found, Answer, found, missed, Goto, walk, vm, backtrack, finish, Try, went,
  fell, skip_node, resume, with_memo, has_suffix, start_at,
}
use fox.Lookup.Step.{
  slash, search_of, leaf_match, parent_allows, or_else, pop, back, try_static, try_params,
}
use fox.Lookup.Wildcards.{try_wildcards}
use fox.Lookup.Path.{VmRun, or_params, round, path_step, lookup_loop, lookup_by_path}
use fox.Lookup.Trail.{here, Recorded, IsPlain}
use fox.Lookup.Goes.{
  todo, Grows, IsAt, IsReady, IsSooner, IsKept, Goes, ended, backs, walks, IsRight,
}
use fox.Lookup.Goes.Leaf.{IfFound, IsFound}
use fox.Lookup.Goes.Statics.{IfWent, try_static-IfWent}
use fox.Lookup.Goes.Params.{IfParam, try_params-IfParam}
use fox.Lookup.Goes.Wildcards.{try_wildcards-Goes}
use fox.Lookup.Goes.Last.{end_of_path-Goes, back-IfFound}
use fox.Lookup.Goes.Rounds.{round-Goes}
use fox.Lookup.Ends.Resumes.{Ends, IsResumable, Ends-walk, nil-IsResumable, again, Goes-Ends}

module _ {M E : Type 0} (lib : Library M E) (run : VmRun M E) (method : Bytes) (lazy : Bool)
    (root : Node M) (path : Bytes) (before : List Bytes) where
  abbrev Ready : PathWalk M E → Type 0
  Ready = IsReady lib method lazy root path before

  walk-Ends :
      (x y z : ℕ) (s : PathWalk M E)
      → IsPlain root
      → length path - s.chars_matched < x
      → todo s.skip_static s.child_param_idx s.child_wildcard_idx s.matched < y
      → suc (length path) - s.wildcard_offset < z
      → Ready s
      → IsResumable lib run method lazy root path before s.captured s.stack
      → Ends lib run method lazy root path before (walk s)
  walk-Ends zero y z s pl a b c r q = absurd (omega arith)
  walk-Ends (suc x) zero z s pl a b c r q = absurd (omega arith)
  walk-Ends (suc x) (suc y) zero s pl a b c r q = absurd (omega arith)
  walk-Ends (suc x) (suc y) (suc z) s pl a b c r q =
      Ends-walk lib run method lazy root path before s (
        Goes-Ends lib run method lazy root path before s (round lib run method lazy root path s)
          (round-Goes lib run method lazy root path before s pl r) q
          (λ i j k m h. elim h.1 [
            | inl l ↦
                walk-Ends (suc x) y (suc (suc (length path) - k))
                  (again lib run method lazy root path before s i j k m) pl a (omega (arith, l))
                  (omega arith) (r.0, h.0) q
            | inr (l, o, u) ↦
                walk-Ends (suc x) (suc y) z (again lib run method lazy root path before s i j k m)
                  pl a (omega (arith, l)) (omega (arith, o, u)) (r.0, h.0) q
          ])
          (λ s' r' l q'.
            walk-Ends x
              (suc (todo s'.skip_static s'.child_param_idx s'.child_wildcard_idx s'.matched))
              (suc (suc (length path) - s'.wildcard_offset)) s' pl (omega (arith, r'.0))
              (omega arith) (omega arith) r' q'))

  -- More fuel gives the same answer.
  lookup_loop-more :
      (f k : ℕ) (g : Goto M E) (r : Answer M × LookupState M E)
      → lookup_loop lib run method lazy f root path g ≡ some r
      → lookup_loop lib run method lazy (f + k) root path g ≡ some r
  unfolding lookup_loop
  lookup_loop-more zero k g r h = absurd (ground (arith, h))
  lookup_loop-more (suc f) k (finish a m) r h =
      let e : suc f + k ≡ suc (f + k) = omega arith in rw e h
  lookup_loop-more (suc f) k (walk s) r h =
      let e : suc f + k ≡ suc (f + k) = omega arith in
      rw e (lookup_loop-more f k (path_step lib run method lazy root path (walk s)) r h)
  lookup_loop-more (suc f) k (vm s) r h =
      let e : suc f + k ≡ suc (f + k) = omega arith in
      rw e (lookup_loop-more f k (path_step lib run method lazy root path (vm s)) r h)
  lookup_loop-more (suc f) k (backtrack s) r h =
      let e : suc f + k ≡ suc (f + k) = omega arith in
      rw e (lookup_loop-more f k (path_step lib run method lazy root path (backtrack s)) r h)

  Recorded-start : (l : Bool) (captured : List Bytes) → Recorded l captured [] captured
  Recorded-start true captured = refl
  Recorded-start false captured = sym (append-nil captured)

  start-Ends :
      (memo : LookupState M E)
      → IsValid root
      → IsPlain root
      → Ends lib run method lazy root path before (walk (start_at root before memo))
  unfolding start_at
  start-Ends memo v p =
      walk-Ends (suc (length path)) (suc (todo false 0 0 root)) (suc (suc (length path)))
        (start_at root before memo) p (omega arith) (omega arith) (omega arith)
        (
          ([], here, Recorded-start lazy before, omega arith, v, p),
          ((λ h. (refl, refl, refl)), (λ h. (refl, refl))),
        )
        (nil-IsResumable lib run method lazy root path before before)

  -- On a valid tree whose wildcards have no expressions, and where only static nodes have the key "/":
  -- there is an answer that lookupByPath gives with all fuel from some point on; it is no panic; and
  -- if it is a route, then the route takes the request, and the path leads to it by the captures that
  -- are recorded, or does so with the slash at its end added or taken away, where the route allows it.
  pub lookup_by_path-IsRight :
      (memo : LookupState M E)
      → IsValid root
      → IsPlain root
      → (fuel : ℕ) × (a : Answer M) × (memo' : LookupState M E) × ((more : ℕ)
          → lookup_by_path lib run method lazy (fuel + more) root path before memo
            ≡ some (a, memo'))
        × IsRight lib method lazy root path before a
  unfolding lookup_by_path
  lookup_by_path-IsRight memo v p =
      let (f, a, m, e, r) = start-Ends memo v p in
      (f, a, m, (λ more. lookup_loop-more f more (walk (start_at root before memo)) (a, m) e), r)
