-- ===== src/Parser/Path/Round.antt =====
-- One round of the loop of parsePath keeps the invariant, and its errors are within the path.
use fox.Prelude.{
  ℕ, suc, ◌+◌, ◌≤◌, ◌<◌, ◌≡◌, refl, sym, subst, ap, ◌∙◌, Bool, true, false, ◌&&◌, ◌||◌, Option,
  none, [], ◌∷◌, ◌++◌, ◌==◌, if◌then◌else◌, arith, length, drop, Bytes, inl, inr, Bool-cases,
  Option-cases, ==_iff, length-drop, length-append,
}
use fox.StringsUtil.{decode_hex_pair, upper_hex}
use fox.StringsUtil.Escape.{is_canonical, canonical-hex}
use fox.Parser.{Limits, Library}
use fox.Parser.Outcome.{Ends, holds, refused, Within, Ends-reject, Ends-bind, Ends-error, Ends-map}
use fox.Parser.Path.{
  Progress, dot_segment_stop, no_dot_segment, path_literal, path_escape, path_param, path_brace,
  starts_with, path_round, path_mark, brace_error,
}
use fox.Parser.Path.End.{param_end-Within}
use fox.Parser.Path.State.{Invariant, empty-canonical}
use fox.Parser.Reading.{Reading-write, Reading-brace}
use fox.StringsUtil.Append.{canonical-append}
use fox.Parser.Brace.Text.{Reads, parse_brace-Ends}
use fox.Parser.Tokens.{mark}
use fox.Parser.Path.Cases.{
  dot_stop, no_dot-Ends, unroutable-Within, brace_error-Within, starts_with-some, mark-rest,
  mark-canonical, not_at_end,
}

module _ (lib : Library) (limits : Limits) (path : Bytes) (start : ℕ) where
  -- What is asked of a round: the invariant, and that it reads at least a byte.
  abbrev Keeps : ℕ → Progress → Type 0
  Keeps n s = Invariant limits path start s × (length s.rest < n)

  no_opt :
      (s : Progress) (c : ℕ) (after : Bytes)
      → Invariant limits path start s
      → s.rest ≡ c ∷ after
      → s.opt_catch_all ≡ false
  no_opt s c after inv r = elim (Bool-cases s.opt_catch_all) [
    | inl e ↦ ground (arith, r, inv.last e)
    | inr e ↦ e
  ]

  escape-Ends :
      (s : Progress) (after : Bytes)
      → Invariant limits path start s
      → s.rest ≡ b'%' ∷ after
      → Ends (Keeps (suc (length after))) (Within (length path)) (path_escape s after)
  unfolding path_escape
  escape-Ends s [] inv r = refused (omega arith, omega (arith, inv.place, ap length r))
  escape-Ends s (x ∷ []) inv r = refused (omega arith, omega (arith, inv.place, ap length r))
  escape-Ends s (x ∷ y ∷ rest) inv r =
      let l : s.pos + 3 ≤ length path = omega (arith, inv.place, ap length r) in
      elim (Option-cases (decode_hex_pair x y)) [
        | inl e ↦ rw (path_escape, e) (refused (omega arith, l))
        | inr (b, e) ↦
            rw (path_escape, e)
              (Ends-bind (Ends-reject _ _ (λ _. (omega arith, l))) (λ _ p.
                Ends-bind (Ends-reject _ _ (λ _. (omega arith, l))) (λ _ q.
                  let u : (x == upper_hex x) ≡ true = ground (arith, q) in
                  let v : (y == upper_hex y) ≡ true = ground (arith, q) in
                  holds (
                    Reading-write is_canonical limits path start empty-canonical (b'%' ∷ x ∷ y ∷ [])
                        rest canonical-append inv r (no_opt s _ _ inv r)
                        (canonical-hex x y b [] e p u v ∙ unfold is_canonical in refl),
                    omega arith,
                  ))))
      ]

  stop-Within :
      (s : Progress) (c : ℕ) (after : Bytes) (b : Bool)
      → Invariant limits path start s
      → s.rest ≡ c ∷ after
      → Ends
          (λ _. Unit {0})
          (Within (length path))
          (no_dot_segment s.pos (if b then dot_segment_stop s after else none))
  unfolding dot_segment_stop no_dot_segment
  stop-Within s c after true inv r =
      let l : s.pos + suc (length after) ≡ length path = omega (arith, inv.place, ap length r) in
      no_dot-Ends s.pos (dot_segment_stop s after) (length path)
        (λ stop e. let (p, q) = dot_stop s after stop e in (p, omega (arith, q, l)))
  stop-Within s c after false inv r = holds tt

  literal-Ends :
      (s : Progress) (c : ℕ) (after : Bytes)
      → (lib.rune_size (c ∷ after) ≤ length (c ∷ after))
      → (c == b'%') ≡ false
      → Invariant limits path start s
      → s.rest ≡ c ∷ after
      → Ends (Keeps (suc (length after))) (Within (length path)) (path_literal lib limits s c after)
  unfolding path_literal
  literal-Ends s c after h n inv r =
      let l : s.pos + suc (length after) ≡ length path = omega (arith, inv.place, ap length r) in
      Ends-bind (Ends-reject _ _ (λ _. (omega arith, omega (arith, l)))) (λ _ _.
        Ends-bind
          (Ends-reject _ _ (λ _.
            unroutable-Within lib s.pos c (length path) (c ∷ after) h (omega arith)
              (omega (arith, l))))
          (λ _ p. Ends-bind (Ends-reject _ _ (λ _. (omega arith, omega (arith, l)))) (λ _ _.
            Ends-bind (stop-Within s c after (c == b'.' && s.prev == b'/') inv r) (λ _ _. holds (
              Reading-write is_canonical limits path start empty-canonical (c ∷ []) after
                  canonical-append inv r (no_opt s _ _ inv r)
                  (unfold is_canonical in ground (arith, p)),
              omega arith,
            )))))

  -- Behind the brace.
  param-Ends :
      (s : Progress) (t : Bytes) (i : ℕ) (is_wild is_opt : Bool) (r : Bytes × Option Bytes × ℕ)
      → Invariant limits path start s
      → s.rest ≡ mark is_wild is_opt ++ b'{' ∷ t
      → s.opt_catch_all ≡ false
      → i ≡ s.pos + length (mark is_wild is_opt)
      → Reads limits.max_param_key_bytes t r
      → Ends
          (Keeps (length s.rest))
          (Within (length path))
          (path_param lib limits s i (b'{' ∷ t) is_wild is_opt r)
  unfolding path_param
  param-Ends s t i is_wild is_opt (name, re, n) inv r shut e (text, pos, len, name_ok) =
      let rest : Bytes = drop n (b'{' ∷ t) in
      let l : i + suc (length t) ≡ length path =
        omega (arith, inv.place, ap length r, length-append (mark is_wild is_opt) (b'{' ∷ t), e) in
      let d = length-drop n (b'{' ∷ t) in
      Ends-bind (Ends-reject _ _ (λ _. (omega (arith, e), omega (arith, l, len)))) (λ _ p.
        Ends-bind (Ends-reject _ _ (λ _. (omega (arith, e), omega (arith, l, len)))) (λ _ q.
          Ends-bind
            (Ends-reject _ _ (λ k. (omega arith, omega (arith, l, len, d, not_at_end rest k))))
            (λ _ _. holds (
              Reading-brace is_canonical limits path start empty-canonical t name re i n is_wild
                is_opt s.saw_wild false inv r shut e (text, pos, len, name_ok) p q))))

  brace-Ends :
      (s : Progress) (t : Bytes) (i : ℕ) (is_wild is_opt : Bool)
      → Invariant limits path start s
      → s.rest ≡ mark is_wild is_opt ++ b'{' ∷ t
      → s.opt_catch_all ≡ false
      → i ≡ s.pos + length (mark is_wild is_opt)
      → Ends
          (Keeps (length s.rest))
          (Within (length path))
          (path_brace lib limits s i (b'{' ∷ t) is_wild is_opt)
  unfolding path_brace
  brace-Ends s t i is_wild is_opt inv r shut e =
      let l : i + suc (length t) ≡ length path =
        omega (arith, inv.place, ap length r, length-append (mark is_wild is_opt) (b'{' ∷ t), e) in
      Ends-bind (Ends-reject _ _ (λ _. param_end-Within t i (length path) l)) (λ _ _.
        Ends-bind
          (Ends-error (brace_error s i is_opt) (parse_brace-Ends lib limits t b'/' is_opt) (λ err w.
            brace_error-Within s i is_opt err _ (omega (arith, e)) (w.0, omega (arith, w.1, l))))
          (λ r' h. param-Ends s t i is_wild is_opt r' inv r shut e h))

  -- A plus or a star.
  mark-Ends :
      (s : Progress) (c : ℕ) (after : Bytes)
      → Invariant limits path start s
      → s.rest ≡ c ∷ after
      → (c == b'+' || c == b'*') ≡ true
      → Ends (Keeps (suc (length after))) (Within (length path)) (path_mark lib limits s c after)
  unfolding path_mark
  mark-Ends s c after inv r h = elim (Bool-cases (starts_with b'{' after)) [
    | inl e ↦
        let (t, p) = starts_with-some b'{' after e in
        let q : s.rest ≡ mark true (c == b'*') ++ b'{' ∷ t = r ∙ mark-rest c after t h p in
        let k : length s.rest ≡ suc (length after) = ap length r in
        rw (path_mark, e)
          (Ends-map
            (subst
              (λ text.
                Ends (Keeps (length s.rest)) (Within (length path))
                  (path_brace lib limits s (s.pos + 1) text true (c == b'*')))
              (sym p)
              (brace-Ends s t (s.pos + 1) true (c == b'*') inv q (no_opt s c after inv r)
                (omega arith)))
            (λ s' (i, l). (i, omega (arith, l, k))))
    | inr e ↦
        rw (path_mark, e)
          (holds (
            Reading-write is_canonical limits path start empty-canonical (c ∷ []) after
                canonical-append inv r (no_opt s c after inv r) (mark-canonical c h),
            omega arith,
          ))
  ]

  pub round-Ends :
      (s : Progress) (c : ℕ) (after : Bytes)
      → lib.rune_size (c ∷ after) ≤ length (c ∷ after)
      → Invariant limits path start s
      → s.rest ≡ c ∷ after
      → Ends (Keeps (suc (length after))) (Within (length path)) (path_round lib limits s c after)
  unfolding path_round
  round-Ends s c after h inv r =
      let shut = no_opt s c after inv r in
      elim (Bool-cases (c == b'{')) [
        | inl e ↦
            let q = r ∙ ap (λ x. x ∷ after) ((==_iff c b'{').0 e) in
            rw (path_round, e, (==_iff c b'{').0 e)
              (Ends-map (brace-Ends s after s.pos false false inv q shut (omega arith))
                (λ s' (i, k). (i, omega (arith, k, ap length r))))
        | inr e ↦ elim (Bool-cases (c == b'+' || c == b'*')) [
          | inl f ↦ rw (path_round, e, f) (mark-Ends s c after inv r f)
          | inr f ↦ elim (Bool-cases (c == b'%')) [
            | inl g ↦
                rw (path_round, e, f, g)
                  (escape-Ends s after inv (r ∙ ap (λ x. x ∷ after) ((==_iff c b'%').0 g)))
            | inr g ↦ rw (path_round, e, f, g) (literal-Ends s c after h g inv r)
          ]
        ]
      ]
