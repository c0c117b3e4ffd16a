-- ===== src/Lookup/Finds.antt =====
-- lookupByPath finds a route wherever one matches, in the trees without wildcards.
pub mod Down
mod Ways
pub mod Rounds
mod Statics
mod Segments
mod Backs
use fox.Prelude.{
  ℕ, zero, suc, ◌+◌, ◌≡◌, ◌⊎◌, inl, inr, refl, sym, subst, ap, ◌∙◌, Bool, true, false, Option, none,
  some, List, [], ◌∷◌, ◌++◌, arith, Bytes, List-cases, append-nil, get_elem?,
}
use fox.Route.{Route}
use fox.Node.{Node, routes}
use fox.Node.Content.{IsValid}
use fox.Lookup.{Library, LookupState}
use fox.Lookup.State.{
  SkipNode, PathWalk, Found, Answer, found, missed, nested_outside, scan_out_of_fuel, Goto, walk,
  vm, backtrack, finish, Try, went, fell, with_memo, start_at,
}
use fox.Lookup.Step.{search_of, try_static, try_params}
use fox.Lookup.Wildcards.{try_wildcards}
use fox.Lookup.Path.{VmRun, or_params, round, path_step, lookup_loop, lookup_by_path}
use fox.Lookup.Trail.{Trail, Takes, IsAnswer, IsPlain}
use fox.Lookup.Goes.{IsRight}
use fox.Lookup.Ends.{lookup_by_path-IsRight}
use fox.Lookup.Finds.Down.{IsSimple, Below, at_leaf, Among-get_elem?, Trail-Below}
use fox.Lookup.Finds.Rounds.{Keeps, Covers, Leaves, IsFitWalk, IsApart}
use fox.Lookup.Finds.Statics.{IfStatic, try_static-IfStatic}
use fox.Lookup.Finds.Segments.{IfParams, try_params-IfParams}
use fox.Lookup.Finds.Backs.{try_wildcards-Keeps, end_of_path-Keeps, back-Keeps}

module _ {M E : Type 0} (lib : Library M E) (run : VmRun M E) (method : Bytes) (lazy : Bool)
    (root : Node M) (path : Bytes) (r : Route M) where
  abbrev Kept : Goto M E → Type 0
  Kept = Keeps lib method lazy root path r

  or_params-Keeps :
      (s : PathWalk M E) (m : LookupState M E)
      → IsApart lib method lazy root path r
      → IsFitWalk lib method lazy root path r s
      → (t : Try M E) → IfParams lib method lazy root path r s t
      → Kept (elim t as (λ _. Goto M E) [
        | went g ↦ g
        | fell s' ↦ try_wildcards lib method lazy path root s'
      ])
  or_params-Keeps s m a f (went g) h = h
  or_params-Keeps s m a f (fell s') (e, c) =
      subst (λ y. Kept (try_wildcards lib method lazy path root y)) (sym e)
        (try_wildcards-Keeps lib method lazy root path r s f c)

  round-Keeps :
      (s : PathWalk M E)
      → IsApart lib method lazy root path r
      → r.nested ≡ false
      → Takes lib method r
      → Kept (walk s)
      → Kept (round lib run method lazy root path s)
  unfolding round
  round-Keeps s a n t (f, k) = elim (List-cases (search_of path s)) [
    | inl d ↦ rw (round, d) (end_of_path-Keeps lib method lazy root path r s n t f d k)
    | inr (c, rest, d) ↦
        rw (round, d)
          (by_static (try_static lib method lazy root path s)
            (try_static-IfStatic lib method lazy root path r s c rest d a f k))
  ]
    where
      by_static :
          (x : Try M E)
          → IfStatic lib method lazy root path r s x
          → Kept (elim x as (λ _. Goto M E) [
            | went g ↦ g
            | fell s' ↦ or_params lib run method lazy root path s'
          ])
      by_static (went g) h = h
      by_static (fell s') (m, e, w) =
          subst (λ y. Kept (or_params lib run method lazy root path y)) (sym e)
            (or_params-Keeps (with_memo s m) m a f
              (try_params lib method lazy root path (with_memo s m))
              (try_params-IfParams lib method lazy root path r (with_memo s m) a f w))

  loop-found :
      (fuel : ℕ) (g : Goto M E) (x : Answer M) (m : LookupState M E)
      → IsApart lib method lazy root path r
      → r.nested ≡ false
      → Takes lib method r
      → Kept g
      → lookup_loop lib run method lazy fuel root path g ≡ some (x, m)
      → (y : Found M) × (x ≡ found y)
  unfolding lookup_loop path_step
  loop-found zero g x m a n t k e = absurd (ground (arith, e))
  loop-found (suc fuel) (finish (found y) m') x m a n t k e = (y, ground (arith, e))
  loop-found (suc fuel) (finish missed m') x m a n t k e = absurd k
  loop-found (suc fuel) (finish nested_outside m') x m a n t k e = absurd k
  loop-found (suc fuel) (finish scan_out_of_fuel m') x m a n t k e = absurd k
  loop-found (suc fuel) (vm s) x m a n t k e = absurd k
  loop-found (suc fuel) (walk s) x m a n t k e =
      loop-found fuel (path_step lib run method lazy root path (walk s)) x m a n t
        (round-Keeps s a n t k) e
  loop-found (suc fuel) (backtrack s) x m a n t k e =
      loop-found fuel (path_step lib run method lazy root path (backtrack s)) x m a n t
        (back-Keeps lib method lazy root path r s k) e

  -- On a valid tree without wildcards, where only static nodes have the key "/", and a slash or the
  -- end follows a parameter, and where the root has no parameters and is told by its pointer from the
  -- nodes that do: if the path leads to a route that takes the request and is not nested, then
  -- lookupByPath finds a route with all fuel from some point on, and that route takes the request and
  -- is one to which the path leads, perhaps with its last slash added or taken away.
  pub lookup_by_path-finds :
      (before : List Bytes) (memo : LookupState M E)
      → IsValid root
      → IsPlain root
      → IsSimple root
      → IsApart lib method lazy root path r
      → r.nested ≡ false
      → Takes lib method r
      → (up : Option (Node M)) (n : Node M) (vs : List Bytes) (i : ℕ) → Trail lib root up n path vs
      → get_elem? (routes n) i ≡ some r
      → (fuel : ℕ) × (y : Found M) × (memo' : LookupState M E) × ((more : ℕ)
          → lookup_by_path lib run method lazy (fuel + more) root path before memo
            ≡ some (found y, memo'))
        × IsAnswer lib root method path lazy before y
  unfolding lookup_by_path start_at
  lookup_by_path-finds before memo v p sm a n t up nd vs i tl at =
      let (fuel, x, memo', same, right) =
        lookup_by_path-IsRight lib run method lazy root path before memo v p in
      let below : Below lib method r root path =
        subst (λ z. Below lib method r root z) (append-nil path)
          (Trail-Below lib method r root [] sm tl (at_leaf (Among-get_elem? (routes nd) i r at))) in
      let (y, q) =
        loop-found (fuel + 0) (walk (start_at root before memo)) x memo' a n t
          (((v, sm), (λ h. refl), tt), inl (inl (refl, below))) (same 0) in
      (
        fuel,
        y,
        memo',
        (λ more. same more ∙ ap (λ z. some (z, memo')) q),
        subst (IsRight lib method lazy root path before) q right,
      )
