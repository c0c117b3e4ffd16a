-- ===== src/StringsUtil/Normalize/Answer.antt =====
-- NormalizeRawPath: its answer on every text.
use fox.Prelude.{
  ℕ, ◌≡◌, ◌≢◌, refl, sym, ap, ◌∙◌, Bool, true, false, Option, none, some, [], ◌∷◌, ◌==◌,
  if◌then◌else◌, inl, inr, arith, Bytes, is_empty, beq, beq_iff, Bool-cases, ==_iff, Option-cases,
}
use mathlib.Core.Option
use fox.StringsUtil.{decode_hex_pair, Norm, expect, normalize_from, normalize_raw_path}
use fox.StringsUtil.Escape.{unescape, unescape-plain, unescape-hex}
use fox.StringsUtil.Normalize.{normal_form, has_routable_bytes, normalize_from-Sound}

pub unescape-head :
    (c : ℕ) (raw path : Bytes)
    → (c == b'%') ≡ false
    → unescape (c ∷ raw) ≡ some path
    → (rest : Bytes) × (path ≡ c ∷ rest) × (unescape raw ≡ some rest)
unescape-head c raw path e h = elim (Option-cases (unescape raw)) [
  | inl f ↦ ground (arith, (rw (unescape-plain c raw e, f) at h))
  | inr (rest, f) ↦ (rest, cc (rw (unescape-plain c raw e, f) at h), f)
]

pub unescape-cut : (c : ℕ) → (c == b'%') ≡ true → unescape (c ∷ []) ≡ none
unfolding unescape
unescape-cut c e = rw e refl

pub unescape-cut_digit : (c x : ℕ) → (c == b'%') ≡ true → unescape (c ∷ x ∷ []) ≡ none
unfolding unescape
unescape-cut_digit c x e = rw e refl

pub unescape-bad :
    (c x y : ℕ) (raw : Bytes)
    → (c == b'%') ≡ true
    → decode_hex_pair x y ≡ none
    → unescape (c ∷ x ∷ y ∷ raw) ≡ none
unfolding unescape
unescape-bad c x y raw e f = rw (unescape, e, f) refl

pub unescape-escape :
    (c x y b : ℕ) (raw path : Bytes)
    → (c == b'%') ≡ true
    → decode_hex_pair x y ≡ some b
    → unescape (c ∷ x ∷ y ∷ raw) ≡ some path
    → (rest : Bytes) × (path ≡ b ∷ rest) × (unescape raw ≡ some rest)
unescape-escape c x y b raw path e f h =
    let h' : Option.map (λ r. b ∷ r) (unescape raw) ≡ some path =
      sym (unescape-hex x y b raw f) ∙ (rw ((==_iff c b'%').0 e) at h) in
    elim (Option-cases (unescape raw)) [
      | inl g ↦ ground (arith, (rw g at h'))
      | inr (rest, g) ↦ (rest, cc (rw g at h'), g)
    ]

expect-same :
    (b : ℕ) (path : Bytes) (next : Bytes → Option Norm) → expect b (b ∷ path) next ≡ next path
unfolding expect
expect-same b path next = rw ((==_iff b b).1 refl) refl

-- The loop runs to its end on every encoding of the path.
normalize_from-defined :
    (raw path : Bytes) (s : Norm)
    → unescape raw ≡ some path
    → (s' : Norm) × (normalize_from raw path s ≡ some s')
unfolding normalize_from
normalize_from-defined [] [] s h = (s, refl)
normalize_from-defined [] (d ∷ path) s h = unfold unescape in ground (arith, h)
normalize_from-defined (c ∷ []) path s h = elim (Bool-cases (c == b'%')) [
  | inl e ↦ ground (arith, (rw (unescape-cut c e) at h))
  | inr e ↦
      let (rest, q, k) = unescape-head c [] path e h in
      rw (e, q, expect-same) (normalize_from-defined [] rest _ k)
]
normalize_from-defined (c ∷ x ∷ []) path s h = elim (Bool-cases (c == b'%')) [
  | inl e ↦ ground (arith, (rw (unescape-cut_digit c x e) at h))
  | inr e ↦
      let (rest, q, k) = unescape-head c (x ∷ []) path e h in
      rw (e, q, expect-same) (normalize_from-defined (x ∷ []) rest _ k)
]
normalize_from-defined (c ∷ x ∷ y ∷ raw) path s h = elim (Bool-cases (c == b'%')) [
  | inl e ↦ elim (Option-cases (decode_hex_pair x y)) [
    | inl f ↦ ground (arith, (rw (unescape-bad c x y raw e f) at h))
    | inr (b, f) ↦
        let (rest, q, k) = unescape-escape c x y b raw path e f h in
        rw (normalize_from, e, f, q, expect-same) (normalize_from-defined raw rest _ k)
  ]
  | inr e ↦
      let (rest, q, k) = unescape-head c (x ∷ y ∷ raw) path e h in
      rw (e, q, expect-same) (normalize_from-defined (x ∷ y ∷ raw) rest _ k)
]

abbrev start : Norm
start = record { buf = []; pending = []; well_formed = true }

pub normalize_raw_path-cases :
    (raw path : Bytes)
    → (unescape raw ≡ some path
        → normalize_raw_path raw path ≡ (normal_form raw, has_routable_bytes raw))
      × (unescape raw ≢ some path → normalize_raw_path raw path ≡ ([], false))
unfolding normalize_raw_path
normalize_raw_path-cases raw path = (
  λ h.
      let (s', k) = normalize_from-defined raw path start h in
      let (u, v, w, x) = normalize_from-Sound raw path start s' k in
      elim (Bool-cases (is_empty s'.buf)) [
        | inl e ↦ rw (normalize_raw_path, k, e, w, (x e).1) refl
        | inr e ↦ rw (normalize_raw_path, k, e, w, v) refl
      ],
  λ h. elim (Option-cases (normalize_from raw path start)) [
    | inl e ↦ rw (normalize_raw_path, e) refl
    | inr (s', k) ↦ absurd (h (normalize_from-Sound raw path start s' k).0)
  ],
)

some-inj : {a b : Bytes} → Path (Option Bytes) (some a) (some b) → a ≡ b
some-inj h = cc h

true_ne_false : Path Bool true false → ⊥
true_ne_false h = cc h

unfoldable pub decodes_to : Bytes → Bytes → Bool
decodes_to raw path = elim (unescape raw) [ none ↦ false | some p ↦ beq p path ]

-- NormalizeRawPath on every input: if raw is an encoding of the path, the answer is the normal form
-- of raw and whether each byte of raw outside its escapes may stand there; else it is ("", false).
pub normalize_raw_path-answer :
    (raw path : Bytes)
    → normalize_raw_path raw path
      ≡ (if decodes_to raw path then (normal_form raw, has_routable_bytes raw) else ([], false))
unfolding decodes_to
normalize_raw_path-answer raw path = elim (Option-cases (unescape raw)) [
  | inl e ↦
      rw (decodes_to, e) ((normalize_raw_path-cases raw path).1 (λ h. ground (arith, (sym e ∙ h))))
  | inr (p, e) ↦ elim (Bool-cases (beq p path)) [
    | inl f ↦
        rw (decodes_to, e, f)
          ((normalize_raw_path-cases raw path).0 (e ∙ ap some ((beq_iff p path).0 f)))
    | inr f ↦
        rw (decodes_to, e, f)
          ((normalize_raw_path-cases raw path).1
            (λ h. true_ne_false (sym ((beq_iff p path).1 (some-inj (sym e ∙ h))) ∙ f)))
  ]
]
