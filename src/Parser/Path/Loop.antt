-- ===== src/Parser/Path/Loop.antt =====
-- parsePath: what it ends in, on every path.
use fox.Prelude.{
  ℕ, zero, suc, ◌≤◌, ◌<◌, ◌≡◌, refl, Bool, false, List, [], ◌∷◌, arith, length, Bytes,
}
use fox.Route.{Token}
use fox.StringsUtil.Escape.{is_canonical}
use fox.Parser.{Limits, Library}
use fox.Parser.Outcome.{Ends, holds, Within, Ends-bind}
use fox.Parser.Path.{Progress, path_loop, path_start, parse_path}
use fox.Parser.Path.State.{Invariant, empty-canonical}
use fox.Parser.Reading.{IsRead, Reading-start, Reading-end}
use fox.Parser.Path.Round.{round-Ends}

abbrev pub ReadsPath : Limits → Bytes → ℕ → List Token × Bool × ℕ → Type 0
ReadsPath limits path start (tokens, opt, count) =
    IsRead is_canonical limits path start opt tokens count

-- A rune is not longer than the text that it begins.
abbrev pub HasRunes : Library → Type 0
HasRunes lib = (c : ℕ) (t : Bytes) → lib.rune_size (c ∷ t) ≤ length (c ∷ t)

module _ (lib : Library) (limits : Limits) (path : Bytes) (start : ℕ) where
  loop-Ends :
      (f : ℕ) (s : Progress) (text : Bytes)
      → HasRunes lib
      → Invariant limits path start s
      → s.rest ≡ text
      → length text < f
      → Ends
          (λ s'. Invariant limits path start s' × (s'.rest ≡ []))
          (Within (length path))
          (path_loop lib limits f s text)
  unfolding path_loop
  loop-Ends zero s text h inv r l = ground (arith, l)
  loop-Ends (suc f) s [] h inv r l = holds (inv, r)
  loop-Ends (suc f) s (c ∷ after) h inv r l =
      Ends-bind (round-Ends lib limits path start s c after (h c after) inv r)
        (λ s' (i, k). loop-Ends f s' s'.rest h i refl (omega (arith, k, l)))

  -- Where a rune is not longer than the text it begins, and the hostname's parameters are in bounds:
  -- parsePath returns tokens that print as the path, with literal texts in canonical form, names in
  -- bounds and a count of the parameters that is right and in bounds, or an error whose positions are
  -- within the path. The fuel never runs out.
  pub parse_path-Ends :
      HasRunes lib
      → start ≤ limits.max_params
      → Ends (ReadsPath limits path start) (Within (length path)) (parse_path lib limits path start)
  unfolding parse_path
  parse_path-Ends h k =
      Ends-bind
        (loop-Ends (suc (length path)) (path_start path start) path h
          (Reading-start is_canonical limits path start empty-canonical k) refl (omega arith))
        (λ s (inv, r).
          holds (Reading-end is_canonical limits path start empty-canonical false inv r))
