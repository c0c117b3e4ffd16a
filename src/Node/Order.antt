-- ===== src/Node/Order.antt =====
-- node.go: the order in which the routes of one leaf are tried (addRoute, replaceRoute, delRoute,
-- findInsertPosition).
pub mod Ranked
pub mod Replaced
use fox.Prelude.{
  ℕ, zero, suc, Bool, true, false, ◌&&◌, not, Option, none, some, List, [], ◌∷◌, ◌++◌, ◌==◌,
  if◌then◌else◌, ltb, get_elem?,
}
use fox.Route.{Route, is_nil}
use fox.Node.{Node, routes, with_routes}

module _ {ℓ} {A : Type ℓ} where
  -- slices.Insert, slices.Delete of one element, and a write.
  abbrev pub insert_at : List A → ℕ → A → List A
  insert_at xs zero x = x ∷ xs
  insert_at [] (suc i) x = x ∷ []
  insert_at (y ∷ ys) (suc i) x = y ∷ insert_at ys i x

  abbrev pub delete_at : List A → ℕ → List A
  delete_at [] i = []
  delete_at (y ∷ ys) zero = ys
  delete_at (y ∷ ys) (suc i) = y ∷ delete_at ys i

  abbrev pub set : List A → ℕ → A → List A
  set [] i x = []
  set (y ∷ ys) zero x = x ∷ ys
  set (y ∷ ys) (suc i) x = y ∷ set ys i x

module _ {M : Type 0} where
  -- The tests of one round of findInsertPosition: `r` is tried before `existing`.
  unfoldable pub before : Route M → Route M → Bool
  before r existing =
      if not (is_nil r.methods) && is_nil existing.methods
      then true
      else if is_nil r.methods && not (is_nil existing.methods)
      then false
      else if not (is_nil r.matchers) && is_nil existing.matchers
      then true
      else not (is_nil r.matchers)
        && not (is_nil existing.matchers)
        && ltb existing.priority r.priority

  unfoldable pub find_insert_position : List (Route M) → Route M → ℕ
  find_insert_position [] r = 0
  find_insert_position (existing ∷ rest) r =
      if before r existing then 0 else suc (find_insert_position rest r)

  unfoldable pub add_route : Node M → Route M → Node M
  unfolding find_insert_position before
  add_route n r =
      if is_nil r.methods && is_nil r.matchers
      then with_routes n (routes n ++ r ∷ [])
      else with_routes n (insert_at (routes n) (find_insert_position (routes n) r) r)

  -- An index out of range panics in the source; its callers pass the index of a route.
  unfoldable pub replace_route : Node M → ℕ → Route M → Node M
  unfolding find_insert_position before
  replace_route n idx r = elim (get_elem? (routes n) idx) [
    | none ↦ n
    | some old ↦
        if (if old.priority == r.priority then true else is_nil r.matchers)
        then with_routes n (set (routes n) idx r)
        else let rest = delete_at (routes n) idx in
          with_routes n (insert_at rest (find_insert_position rest r) r)
  ]

  unfoldable pub del_route : Node M → ℕ → Node M
  del_route n idx = with_routes n (delete_at (routes n) idx)
