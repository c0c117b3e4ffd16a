-- ===== src/Lookup/Goes/Rounds.antt =====
-- lookupByPath: where a round goes.
use fox.Prelude.{
  ◌<◌, inl, inr, sym, subst, ap, Bool, List, arith, length, length-drop, Bytes, List-cases,
}
use fox.Node.{Node}
use fox.Lookup.{Library, LookupState}
use fox.Lookup.State.{PathWalk, Goto, Try, went, fell, with_memo}
use fox.Lookup.Step.{search_of, try_static, try_params}
use fox.Lookup.Wildcards.{try_wildcards}
use fox.Lookup.Path.{VmRun, or_params, round}
use fox.Lookup.Trail.{IsPlain}
use fox.Lookup.Goes.{IsReady, Goes, ended, backs, walks}
use fox.Lookup.Goes.Statics.{IfWent, try_static-IfWent}
use fox.Lookup.Goes.Params.{IfParam, try_params-IfParam}
use fox.Lookup.Goes.Wildcards.{try_wildcards-Goes}
use fox.Lookup.Goes.Last.{end_of_path-Goes}

module _ {M E : Type 0} (lib : Library M E) (run : VmRun M E) (method : Bytes) (lazy : Bool)
    (root : Node M) (path : Bytes) (before : List Bytes) where
  abbrev Now : PathWalk M E → Goto M E → Type 0
  Now = Goes lib method lazy root path before

  abbrev Ready : PathWalk M E → Type 0
  Ready = IsReady lib method lazy root path before

  Goes-memo :
      (s : PathWalk M E) (m : LookupState M E) (g : Goto M E) → Now (with_memo s m) g → Now s g
  Goes-memo s m _ (ended f m' h) = ended f m' h
  Goes-memo s m _ (backs s' k g h) = backs s' k g h
  Goes-memo s m _ (walks s' k g h l) = walks s' k g h l

  or_params-Goes :
      (s : PathWalk M E)
      → Ready s
      → s.chars_matched < length path
      → Now s (or_params lib run method lazy root path s)
  or_params-Goes s r l =
      by_try (try_params lib method lazy root path s)
        (try_params-IfParam lib method lazy root path before s r)
    where
      by_try :
          (t : Try M E)
          → IfParam lib method lazy root path before s t
          → Now s (elim t as (λ _. Goto M E) [
            | went g ↦ g
            | fell s' ↦ try_wildcards lib method lazy path root s'
          ])
      by_try (went g) h = h
      by_try (fell s') e =
          subst (λ y. Now s (try_wildcards lib method lazy path root y)) (sym e)
            (try_wildcards-Goes lib method lazy root path before s r l s.memo)

  pub round-Goes :
      (s : PathWalk M E) → IsPlain root → Ready s → Now s (round lib run method lazy root path s)
  unfolding round
  round-Goes s pl r = elim (List-cases (search_of path s)) [
    | inl d ↦ rw (round, d) (end_of_path-Goes lib method lazy root path before s pl r d)
    | inr (c, rest, d) ↦
        rw (round, d)
          (by_try (omega (arith, ap length d, length-drop s.chars_matched path))
            (try_static lib method lazy root path s)
            (try_static-IfWent lib method lazy root path before s r))
  ]
    where
      by_try :
          s.chars_matched < length path
          → (t : Try M E) → IfWent lib method lazy root path before s t
          → Now s (elim t as (λ _. Goto M E) [
            | went g ↦ g
            | fell s' ↦ or_params lib run method lazy root path s'
          ])
      by_try l (went g) h = h
      by_try l (fell s') (m, e) =
          subst (λ y. Now s (or_params lib run method lazy root path y)) (sym e)
            (Goes-memo s m (or_params lib run method lazy root path (with_memo s m))
              (or_params-Goes (with_memo s m) r l))
