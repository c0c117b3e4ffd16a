-- ===== src/Parser/Hostname/Round.antt =====
-- One round of the loop of parseHostname keeps the invariant, and its errors are within the hostname.
use fox.Prelude.{
  ℕ, suc, ◌+◌, ◌≤◌, ◌<◌, ◌≡◌, refl, sym, subst, ap, ◌∙◌, Bool, true, false, ◌&&◌, ◌||◌, not, Option,
  [], ◌∷◌, ◌++◌, ◌==◌, arith, length, drop, Bytes, leb, inl, inr, Bool-cases, ==_iff, length-drop,
  length-append,
}
use fox.Parser.{Limits, Library, shift}
use fox.Parser.Outcome.{Ends, holds, refused, Within, Ends-reject, Ends-bind, Ends-error, Ends-map}
use fox.Parser.Brace.Text.{Reads, parse_brace-Ends}
use fox.Parser.Tokens.{mark}
use fox.Parser.Reading.{Reading, Reading-write, Reading-brace}
use fox.Parser.Path.{starts_with}
use fox.Parser.Path.Cases.{starts_with-some}
use fox.Parser.Path.End.{param_end-Within}
use fox.Parser.Hostname.{
  Progress, put_byte, at_label_end, host_dot, host_dash, host_label, host_star, host_plus,
  host_param, host_brace, host_round,
}

-- A byte of a label, or a dot.
unfoldable pub is_host_byte : ℕ → Bool
is_host_byte c =
    leb b'a' c && leb c b'z' || c == b'_' || leb b'0' c && leb c b'9' || c == b'-' || c == b'.'

unfoldable pub is_host_text : Bytes → Bool
unfolding is_host_byte
is_host_text [] = true
is_host_text (c ∷ s) = is_host_byte c && is_host_text s

host_text-append :
    (a b : Bytes) → is_host_text a ≡ true → is_host_text b ≡ true → is_host_text (a ++ b) ≡ true
unfolding is_host_text
host_text-append [] b h k = k
host_text-append (c ∷ a) b h k = ground (arith, host_text-append a b, h, k)

pub empty-host_text : is_host_text [] ≡ true
unfolding is_host_text
empty-host_text = refl

label_rest : (rest : Bytes) → not (at_label_end rest) ≡ true → 0 < length rest
label_rest [] h = ground (arith, h)
label_rest (x ∷ rest) h = omega arith

module _ (lib : Library) (limits : Limits) (host : Bytes) where
  abbrev pub Invariant : Progress → Type 0
  Invariant s =
      Reading is_host_text limits host 0 false s.pos s.rest s.buf s.tokens s.param_count
      × (s.label_start ≤ s.pos)

  abbrev Keeps : ℕ → Progress → Type 0
  Keeps n s = Invariant s × (length s.rest < n)

  -- Behind the inner switch, before the byte is written.
  abbrev Labelled : ℕ → Bytes → Progress → Type 0
  Labelled c after s =
      Reading is_host_text limits host 0 false s.pos s.rest s.buf s.tokens s.param_count
      × (s.rest ≡ c ∷ after)
      × (s.label_start ≤ s.pos + 1)
      × (is_host_byte c ≡ true)

  module _ (s : Progress) (c : ℕ) (after : Bytes) (inv : Invariant s) (r : s.rest ≡ c ∷ after) where
    here : s.pos + suc (length after) ≡ length host
    here = omega (arith, inv.0.place, ap length r)

    dot-Ends : c ≡ b'.' → Ends (Labelled c after) (Within (length host)) (host_dot s)
    unfolding host_dot
    dot-Ends e = Ends-bind (Ends-reject _ _ (λ _. (omega arith, omega (arith, here)))) (λ _ _.
        Ends-bind (Ends-reject _ _ (λ _. (omega arith, omega (arith, here)))) (λ _ _.
          Ends-bind (Ends-reject _ _ (λ _. (omega arith, omega (arith, here)))) (λ _ _.
            Ends-bind (Ends-reject _ _ (λ _. (inv.1, omega (arith, here))))
              (λ _ _. holds (inv.0, r, omega arith, unfold is_host_byte in rw e refl)))))

    dash-Ends : c ≡ b'-' → Ends (Labelled c after) (Within (length host)) (host_dash s)
    unfolding host_dash
    dash-Ends e = Ends-bind (Ends-reject _ _ (λ _. (omega arith, omega (arith, here)))) (λ _ _.
        Ends-bind (Ends-reject _ _ (λ _. (omega arith, omega (arith, here))))
          (λ _ _. holds (inv.0, r, omega (arith, inv.1), unfold is_host_byte in rw e refl)))

    label-Ends : Ends (Labelled c after) (Within (length host)) (host_label s c)
    unfolding host_label
    label-Ends = elim (Bool-cases (leb b'a' c && leb c b'z' || c == b'_')) [
      | inl e ↦
          rw (host_label, e)
            (holds (inv.0, r, omega (arith, inv.1), unfold is_host_byte in ground (arith, e)))
      | inr e ↦ elim (Bool-cases (leb b'0' c && leb c b'9')) [
        | inl f ↦
            rw (host_label, e, f)
              (holds (inv.0, r, omega (arith, inv.1), unfold is_host_byte in ground (arith, f)))
        | inr f ↦ elim (Bool-cases (c == b'-')) [
          | inl g ↦ rw (host_label, e, f, g) (dash-Ends ((==_iff c b'-').0 g))
          | inr g ↦ elim (Bool-cases (c == b'.')) [
            | inl k ↦ rw (host_label, e, f, g, k) (dot-Ends ((==_iff c b'.').0 k))
            | inr k ↦ elim (Bool-cases (leb b'A' c && leb c b'Z')) [
              | inl j ↦ rw (host_label, e, f, g, k, j) (refused (omega arith, omega (arith, here)))
              | inr j ↦ rw (host_label, e, f, g, k, j) (refused (omega arith, omega (arith, here)))
            ]
          ]
        ]
      ]
    ]

    put-Keeps :
        (s' : Progress) → Labelled c after s' → Keeps (suc (length after)) (put_byte s' c after)
    put-Keeps s' (read, r', l, h) = (
      (
        Reading-write is_host_text limits host 0 empty-host_text (c ∷ []) after host_text-append
            read r' refl (unfold is_host_text in ground (arith, h)),
        l,
      ),
      omega arith,
    )

  param-Ends :
      (s : Progress) (t : Bytes) (i : ℕ) (is_wild : Bool) (r : Bytes × Option Bytes × ℕ)
      → Invariant s
      → s.rest ≡ mark is_wild false ++ b'{' ∷ t
      → i ≡ s.pos + length (mark is_wild false)
      → Reads limits.max_param_key_bytes t r
      → Ends
          (Keeps (length s.rest))
          (Within (length host))
          (host_param lib limits s i (b'{' ∷ t) is_wild r)
  unfolding host_param
  param-Ends s t i is_wild (name, re, n) (inv, low) r e (text, pos, len, name_ok) =
      let rest : Bytes = drop n (b'{' ∷ t) in
      let l : i + suc (length t) ≡ length host =
        omega (arith, inv.place, ap length r, length-append (mark is_wild false) (b'{' ∷ t), e) in
      let d = length-drop n (b'{' ∷ t) in
      Ends-bind (Ends-reject _ _ (λ _. (omega (arith, e), omega (arith, l, len)))) (λ _ p.
        Ends-bind
          (Ends-reject _ _ (λ k. (omega arith, omega (arith, l, len, d, label_rest rest k))))
          (λ _ _.
            let (read, k) =
              Reading-brace is_host_text limits host 0 empty-host_text t name re i n is_wild false
                s.saw_wild true inv r refl e (text, pos, len, name_ok) p refl in
            holds ((read, omega (arith, low, e)), k)))

  brace-Ends :
      (s : Progress) (t : Bytes) (i : ℕ) (is_wild : Bool)
      → Invariant s
      → s.rest ≡ mark is_wild false ++ b'{' ∷ t
      → i ≡ s.pos + length (mark is_wild false)
      → Ends
          (Keeps (length s.rest))
          (Within (length host))
          (host_brace lib limits s i (b'{' ∷ t) is_wild)
  unfolding host_brace
  brace-Ends s t i is_wild inv r e =
      let l : i + suc (length t) ≡ length host =
        omega (arith, inv.0.place, ap length r, length-append (mark is_wild false) (b'{' ∷ t), e) in
      Ends-bind (Ends-reject _ _ (λ _. param_end-Within t i (length host) l)) (λ _ _.
        Ends-bind
          (Ends-error (shift i) (parse_brace-Ends lib limits t b'.' false)
            (λ err (p, q). (omega (arith, p), omega (arith, q, l))))
          (λ r' h. param-Ends s t i is_wild r' inv r e h))

  module _ (s : Progress) (after : Bytes) (inv : Invariant s) where
    plus-Ends :
        s.rest ≡ b'+' ∷ after
        → Ends (Keeps (suc (length after))) (Within (length host)) (host_plus lib limits s after)
    unfolding host_plus
    plus-Ends r = elim (Bool-cases (starts_with b'{' after)) [
      | inl e ↦
          let (t, p) = starts_with-some b'{' after e in
          rw (host_plus, e)
            (Ends-map
              (subst
                (λ text.
                  Ends (Keeps (length s.rest)) (Within (length host))
                    (host_brace lib limits s (s.pos + 1) text true))
                (sym p)
                (brace-Ends s t (s.pos + 1) true inv (r ∙ ap (λ x. b'+' ∷ x) p) (omega arith)))
              (λ s' (i, k). (i, omega (arith, k, ap length r))))
      | inr e ↦ rw (host_plus, e) (refused (omega arith, omega (arith, here s b'+' after inv r)))
    ]

    star-Ends :
        s.rest ≡ b'*' ∷ after
        → Ends (Keeps (suc (length after))) (Within (length host)) (host_star s after)
    unfolding host_star
    star-Ends r = elim (Bool-cases (starts_with b'{' after)) [
      | inl e ↦
          let (t, p) = starts_with-some b'{' after e in
          rw (host_star, e, p)
            (let (a, b) =
                param_end-Within t (s.pos + 1) (length host)
                  (omega (arith, here s b'*' after inv r, ap length p)) in
              refused (omega (arith, a), b))
      | inr e ↦ rw (host_star, e) (refused (omega arith, omega (arith, here s b'*' after inv r)))
    ]

  pub round-Ends :
      (s : Progress) (c : ℕ) (after : Bytes)
      → Invariant s
      → s.rest ≡ c ∷ after
      → Ends (Keeps (suc (length after))) (Within (length host)) (host_round lib limits s c after)
  unfolding host_round
  round-Ends s c after inv r = elim (Bool-cases (c == b'{')) [
    | inl e ↦
        let z = (==_iff c b'{').0 e in
        rw (host_round, e, z)
          (Ends-map (brace-Ends s after s.pos false inv (r ∙ ap (λ x. x ∷ after) z) (omega arith))
            (λ s' (i, k). (i, omega (arith, k, ap length r))))
    | inr e ↦ elim (Bool-cases (c == b'+')) [
      | inl f ↦
          rw (host_round, e, f)
            (plus-Ends s after inv (r ∙ ap (λ x. x ∷ after) ((==_iff c b'+').0 f)))
      | inr f ↦ elim (Bool-cases (c == b'*')) [
        | inl g ↦
            rw (host_round, e, f, g)
              (star-Ends s after inv (r ∙ ap (λ x. x ∷ after) ((==_iff c b'*').0 g)))
        | inr g ↦
            rw (host_round, e, f, g)
              (Ends-bind (label-Ends s c after inv r)
                (λ s' h. holds (put-Keeps s c after inv r s' h)))
      ]
    ]
  ]
