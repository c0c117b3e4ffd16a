-- ===== src/Parser/Path/End.antt =====
-- Positions of parameters, which the parsers of the hostname and of the path report.
use fox.Prelude.{ℕ, suc, ◌+◌, ◌-◌, ◌≤◌, ◌≡◌, ◌∷◌, arith, length, Bytes, inl, inr, Option-cases}
use fox.Parser.Path.{param_end}
use fox.Parser.Brace.{brace_index}
use fox.Parser.Brace.Text.{brace_index-some}

pub param_end-Within :
    (t : Bytes) (i n : ℕ)
    → i + suc (length t) ≡ n
    → (i - 1 ≤ param_end (b'{' ∷ t) i) × (param_end (b'{' ∷ t) i ≤ n)
unfolding param_end
param_end-Within t i n h = elim (Option-cases (brace_index t 1)) [
  | inl e ↦ rw (param_end, e) (omega arith, omega (arith, h))
  | inr (j, e) ↦
      let (_, l) = brace_index-some t 1 j e in rw (param_end, e) (omega arith, omega (arith, h, l))
]
