-- ===== src/Parser/Outcome.antt =====
-- Postconditions of a parse: of its value, or of its error. A parse without fuel meets none.
use fox.Prelude.{ℕ, ◌≤◌, ◌≡◌, ◌≢◌, refl, subst, Bool, true, false}
use fox.Parser.{PatternError, Parse, parsed, failed, out_of_fuel, ◌>>=◌, on_error, reject_if}

pub data Ends {A : Type 0} (P : A → Type 0) (Q : PatternError → Type 0) : Parse A → Type 0 where
  holds : {a : A} → P a → Ends P Q (parsed a)
  refused : {e : PatternError} → Q e → Ends P Q (failed e)

-- The positions of an error are within a text of this length.
abbrev pub Within : ℕ → PatternError → Type 0
Within n e = (e.start ≤ e.stop) × (e.stop ≤ n)

pub Ends-reject :
    (b : Bool) (e : PatternError) {Q : PatternError → Type 0}
    → (b ≡ true → Q e)
    → Ends (λ _. b ≡ false) Q (reject_if b e)
unfolding reject_if
Ends-reject true e h = refused (h refl)
Ends-reject false e h = holds refl

module _ {A : Type 0} {P : A → Type 0} {Q : PatternError → Type 0} where
  pub Ends-parsed : {r : Parse A} {a : A} → Ends P Q r → r ≡ parsed a → P a
  Ends-parsed (holds h) e = subst P (cc) h
  Ends-parsed (refused h) e = cc

  pub Ends-failed : {r : Parse A} {e : PatternError} → Ends P Q r → r ≡ failed e → Q e
  Ends-failed (holds h) p = cc
  Ends-failed (refused h) p = subst Q (cc) h

  pub Ends-fuel : {r : Parse A} → Ends P Q r → r ≢ out_of_fuel
  Ends-fuel (holds h) = cc
  Ends-fuel (refused h) = cc

  pub Ends-bind :
      {B : Type 0} {R : B → Type 0} {r : Parse A} {f : A → Parse B}
      → Ends P Q r
      → ((a : A) → P a → Ends R Q (f a))
      → Ends R Q (r >>= f)
  Ends-bind (holds {a} h) k = k a h
  Ends-bind (refused h) k = refused h

  pub Ends-error :
      {S : PatternError → Type 0} {r : Parse A} (f : PatternError → PatternError)
      → Ends P Q r
      → ((e : PatternError) → Q e → S (f e))
      → Ends P S (on_error f r)
  Ends-error f (holds h) k = holds h
  Ends-error f (refused {e} h) k = refused (k e h)

  pub Ends-weaken :
      {S : PatternError → Type 0} {r : Parse A}
      → Ends P Q r
      → ((e : PatternError) → Q e → S e)
      → Ends P S r
  Ends-weaken (holds h) k = holds h
  Ends-weaken (refused {e} h) k = refused (k e h)

  pub Ends-map : {R : A → Type 0} {r : Parse A} → Ends P Q r → ((a : A) → P a → R a) → Ends R Q r
  Ends-map (holds {a} h) k = holds (k a h)
  Ends-map (refused h) k = refused h
