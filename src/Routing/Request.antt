-- ===== src/Routing/Request.antt =====
-- routingPath: its answer is in canonical form and decodes to the path of the URL.
use fox.Prelude.{
  ◌≡◌, ◌⊎◌, refl, ap, ◌∙◌, true, some, [], ◌∷◌, arith, Bytes, is_empty, beq_iff, All, inl, inr,
  Bool-cases, Option-cases,
}
use fox.StringsUtil.{normalize_raw_path}
use fox.StringsUtil.Escape.{unescape, is_canonical, IsByte, escape_path-canonical}
use fox.StringsUtil.Normalize.{has_routable_bytes}
use fox.StringsUtil.Normalize.Answer.{decodes_to, normalize_raw_path-answer}
use fox.StringsUtil.Normalize.Canonical.{normalize_raw_path-canonical}
use fox.Routing.{routing_path}

decodes_to-unescape : (raw path : Bytes) → decodes_to raw path ≡ true → unescape raw ≡ some path
unfolding decodes_to
decodes_to-unescape raw path h = elim (Option-cases (unescape raw)) [
  | inl e ↦ ground (arith, (rw (decodes_to, e) at h))
  | inr (p, e) ↦ e ∙ ap some ((beq_iff p path).0 (rw (decodes_to, e) at h))
]

-- The request is left as it is only if its path was the default encoding, or is another one in which
-- every unescaped byte may stand.
abbrev pub MayStay : Bytes → Bytes → Type 0
MayStay raw path = (raw ≡ []) ⊎ ((unescape raw ≡ some path) × (has_routable_bytes raw ≡ true))

empty-nil : (s : Bytes) → is_empty s ≡ true → s ≡ []
empty-nil [] h = refl
empty-nil (c ∷ s) h = ground (arith, h)

-- Whatever RawPath is, for bytes: the routing path decodes to Path and is in canonical form; and if
-- the request is not rewritten, RawPath is empty, or is an encoding of Path in which every unescaped
-- byte may stand.
pub routing_path-canonical :
    (raw path : Bytes)
    → All IsByte raw
    → All IsByte path
    → (unescape (routing_path raw path).0 ≡ some path)
      × (is_canonical (routing_path raw path).0 ≡ true)
      × (((routing_path raw path).1 ≡ true) ⊎ MayStay raw path)
unfolding routing_path
routing_path-canonical raw path h k =
    let (u, c) = escape_path-canonical path k in
    let answer = normalize_raw_path-answer raw path in
    elim (Bool-cases (is_empty raw)) [
      | inl e ↦ rw (routing_path, e) (u, c, inr (inl (empty-nil raw e)))
      | inr e ↦ elim (Bool-cases (is_empty (normalize_raw_path raw path).0)) [
        | inl f ↦ rw (routing_path, e, f) (u, c, inl refl)
        | inr f ↦ elim (Bool-cases (decodes_to raw path)) [
          | inl d ↦
              let t = decodes_to-unescape raw path d in
              let (v, w) = normalize_raw_path-canonical raw path h t in
              let r : (normalize_raw_path raw path).1 ≡ has_routable_bytes raw =
                ap (λ p. p.1) (rw d at answer) in
              rw (routing_path, e, f)
                (
                  v,
                  w,
                  elim (Bool-cases (has_routable_bytes raw)) [
                    | inl b ↦ inr (inr (t, b))
                    | inr b ↦ inl (ground (arith, r, b))
                  ],
                )
          | inr d ↦ ground (arith, ap (λ p. is_empty p.0) (rw d at answer), f)
        ]
      ]
    ]
