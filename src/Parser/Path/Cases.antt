-- ===== src/Parser/Path/Cases.antt =====
-- Single tests and positions of parsePath.
use fox.Prelude.{
  ℕ, suc, ◌+◌, ◌-◌, ◌≤◌, ◌<◌, ◌≡◌, refl, ap, Bool, true, ◌||◌, not, Option, none, some, [], ◌∷◌,
  ◌++◌, ◌==◌, arith, length, Bytes, inl, inr, Bool-cases, ==_iff,
}
use fox.StringsUtil.{is_routable_raw}
use fox.StringsUtil.Escape.{is_canonical}
use fox.Parser.{Library, PatternError}
use fox.Parser.Outcome.{Ends, holds, refused, Within}
use fox.Parser.Path.{
  Progress, dot_segment_stop, no_dot_segment, unroutable_error, starts_with, at_segment_end,
  brace_error,
}
use fox.Parser.Tokens.{mark}

pub dot_stop :
    (s : Progress) (after : Bytes) (stop : ℕ)
    → dot_segment_stop s after ≡ some stop
    → (s.pos - 1 ≤ stop) × (stop ≤ s.pos + suc (length after))
unfolding dot_segment_stop
dot_stop s [] stop h = ground (arith, h)
dot_stop s (x ∷ []) stop h = ground (arith, h)
dot_stop s (x ∷ y ∷ after) stop h = ground (arith, h)

pub no_dot-Ends :
    (pos : ℕ) (o : Option ℕ) (n : ℕ)
    → ((stop : ℕ) → o ≡ some stop → (pos - 1 ≤ stop) × (stop ≤ n))
    → Ends (λ _. Unit {0}) (Within n) (no_dot_segment pos o)
unfolding no_dot_segment
no_dot-Ends pos none n h = holds tt
no_dot-Ends pos (some stop) n h = refused (h stop refl)

pub unroutable-Within :
    (lib : Library) (pos c n : ℕ) (text : Bytes)
    → lib.rune_size text ≤ length text
    → 0 < length text
    → pos + length text ≤ n
    → Within n (unroutable_error lib pos c text)
unfolding unroutable_error
unroutable-Within lib pos c n text h k l = ground (arith, h, k, l)

pub brace_error-Within :
    (s : Progress) (i : ℕ) (is_opt : Bool) (e : PatternError) (n : ℕ)
    → s.pos ≤ i
    → (e.start ≤ e.stop) × (e.stop + i ≤ n)
    → Within n (brace_error s i is_opt e)
brace_error-Within s i is_opt e n h (k, l) = ground (arith, h, k, l)

pub starts_with-some : (c : ℕ) (s : Bytes) → starts_with c s ≡ true → (t : Bytes) × (s ≡ c ∷ t)
starts_with-some c [] h = ground (arith, h)
starts_with-some c (x ∷ s) h = (s, ap (λ y. y ∷ s) ((==_iff x c).0 h))

pub mark-rest :
    (c : ℕ) (after t : Bytes)
    → (c == b'+' || c == b'*') ≡ true
    → after ≡ b'{' ∷ t
    → c ∷ after ≡ mark true (c == b'*') ++ b'{' ∷ t
mark-rest c after t h p = elim (Bool-cases (c == b'*')) [
  | inl e ↦ rw (e, p, (==_iff c b'*').0 e) refl
  | inr e ↦ let q : c ≡ b'+' = ground (arith, h, e) in rw (p, q) refl
]

pub mark-canonical : (c : ℕ) → (c == b'+' || c == b'*') ≡ true → is_canonical (c ∷ []) ≡ true
unfolding is_canonical is_routable_raw
mark-canonical c h = ground (arith, h)

-- What the tests on the rest of the text say of it.
pub not_at_end : (rest : Bytes) → not (at_segment_end rest) ≡ true → 0 < length rest
not_at_end [] h = ground (arith, h)
not_at_end (x ∷ rest) h = omega arith
