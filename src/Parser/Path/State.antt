-- ===== src/Parser/Path/State.antt =====
-- The invariant of the loop of parsePath.
use fox.Prelude.{ℕ, ◌≡◌, refl, true, Bytes, []}
use fox.StringsUtil.Escape.{is_canonical}
use fox.Parser.{Limits}
use fox.Parser.Path.{Progress}
use fox.Parser.Reading.{Reading}

abbrev pub Invariant : Limits → Bytes → ℕ → Progress → Type 0
Invariant limits path start s =
    Reading is_canonical limits path start s.opt_catch_all s.pos s.rest s.buf s.tokens s.param_count

pub empty-canonical : is_canonical [] ≡ true
unfolding is_canonical
empty-canonical = refl
