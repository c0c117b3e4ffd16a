-- ===== src/StringsUtil/Normalize/Canonical.antt =====
-- NormalizeRawPath: its answer on an encoding is in canonical form.
use fox.Prelude.{
  ℕ, ◌≡◌, refl, ◌∙◌, true, false, some, [], ◌∷◌, ◌++◌, ◌==◌, inl, inr, arith, Bytes, All,
  Bool-cases, ==_iff, Option-cases,
}
use fox.StringsUtil.{
  is_unreserved, is_routable_raw, decode_hex_pair, hex_digit, upper_hex, normalize_raw_path,
}
use fox.StringsUtil.Escape.{
  unescape, is_canonical, IsByte, unescape-plain, unescape-hex, canonical-plain, canonical-hex,
  no_escape-ne, no_escape-routable, unreserved-no_escape, not_unreserved, not_no_escape,
  percent-hex, percent-upper,
}
use fox.StringsUtil.Normalize.{
  plain_text, escape_text, normal_form, normal_form-plain, normal_form-hex,
}
use fox.StringsUtil.Normalize.Answer.{
  unescape-head, unescape-cut, unescape-cut_digit, unescape-bad, unescape-escape,
  normalize_raw_path-cases,
}

hex_digit-upper_hex : (x : ℕ) → hex_digit (upper_hex x) ≡ hex_digit x
unfolding hex_digit upper_hex
hex_digit-upper_hex x = ground arith

decode-upper_hex : (x y : ℕ) → decode_hex_pair (upper_hex x) (upper_hex y) ≡ decode_hex_pair x y
unfolding decode_hex_pair
decode-upper_hex x y = elim (Option-cases (hex_digit x)) [
  | inl f ↦ rw (decode_hex_pair, hex_digit-upper_hex x, f) refl
  | inr (h, f) ↦ rw (decode_hex_pair, hex_digit-upper_hex x, f, hex_digit-upper_hex y) refl
]

upper_hex_idem : (x : ℕ) → (upper_hex x == upper_hex (upper_hex x)) ≡ true
unfolding upper_hex
upper_hex_idem x = ground arith

escape_text-canonical :
    (x y b : ℕ) (s t : Bytes)
    → decode_hex_pair x y ≡ some b
    → (unescape t ≡ some s) × (is_canonical t ≡ true)
    → (unescape (escape_text x y b ++ t) ≡ some (b ∷ s))
      × (is_canonical (escape_text x y b ++ t) ≡ true)
unfolding escape_text
escape_text-canonical x y b s t h (u, v) = elim (Bool-cases (is_unreserved b)) [
  | inl e ↦
      let p = no_escape-ne b (unreserved-no_escape b e) in
      rw
        (
          e,
          unescape-plain b t p,
          u,
          canonical-plain b t p,
          no_escape-routable b (unreserved-no_escape b e),
          v,
        )
        (refl, refl)
  | inr e ↦
      let p : decode_hex_pair (upper_hex x) (upper_hex y) ≡ some b = decode-upper_hex x y ∙ h in
      rw
        (
          e,
          unescape-hex (upper_hex x) (upper_hex y) b t p,
          u,
          canonical-hex (upper_hex x) (upper_hex y) b t p e (upper_hex_idem x) (upper_hex_idem y),
          v,
        )
        (refl, refl)
]

plain_text-canonical :
    (c : ℕ) (s t : Bytes)
    → IsByte c
    → (c == b'%') ≡ false
    → (unescape t ≡ some s) × (is_canonical t ≡ true)
    → (unescape (plain_text c ++ t) ≡ some (c ∷ s)) × (is_canonical (plain_text c ++ t) ≡ true)
unfolding plain_text
plain_text-canonical c s t k p (u, v) = elim (Bool-cases (is_routable_raw c)) [
  | inl e ↦ rw (e, unescape-plain c t p, u, canonical-plain c t p, e, v) (refl, refl)
  | inr e ↦
      rw
        (
          e,
          unescape-hex _ _ c t (percent-hex c k),
          u,
          canonical-hex _ _ c t (percent-hex c k) (not_unreserved c (not_no_escape c e))
              (percent-upper c k).0 (percent-upper c k).1,
          v,
        )
        (refl, refl)
]

normal_form_lem :
    (raw path : Bytes)
    → All IsByte raw
    → unescape raw ≡ some path
    → (unescape (normal_form raw) ≡ some path) × (is_canonical (normal_form raw) ≡ true)
normal_form_lem [] path h u =
    (unfold unescape normal_form in u, unfold is_canonical normal_form in refl)
normal_form_lem (c ∷ []) path h u = elim (Bool-cases (c == b'%')) [
  | inl e ↦ ground (arith, (rw (unescape-cut c e) at u))
  | inr e ↦
      let (rest, q, k) = unescape-head c [] path e u in
      rw (normal_form-plain c [] e, q)
        (plain_text-canonical c rest _ h.0 e (normal_form_lem [] rest tt k))
]
normal_form_lem (c ∷ x ∷ []) path h u = elim (Bool-cases (c == b'%')) [
  | inl e ↦ ground (arith, (rw (unescape-cut_digit c x e) at u))
  | inr e ↦
      let (rest, q, k) = unescape-head c (x ∷ []) path e u in
      rw (normal_form-plain c (x ∷ []) e, q)
        (plain_text-canonical c rest _ h.0 e (normal_form_lem (x ∷ []) rest h.1 k))
]
normal_form_lem (c ∷ x ∷ y ∷ raw) path h u = elim (Bool-cases (c == b'%')) [
  | inl e ↦ elim (Option-cases (decode_hex_pair x y)) [
    | inl f ↦ ground (arith, (rw (unescape-bad c x y raw e f) at u))
    | inr (b, f) ↦
        let (rest, q, k) = unescape-escape c x y b raw path e f u in
        rw ((==_iff c b'%').0 e, normal_form-hex x y b raw f, q)
          (escape_text-canonical x y b rest _ f (normal_form_lem raw rest h.1.1.1 k))
  ]
  | inr e ↦
      let (rest, q, k) = unescape-head c (x ∷ y ∷ raw) path e u in
      rw (normal_form-plain c (x ∷ y ∷ raw) e, q)
        (plain_text-canonical c rest _ h.0 e (normal_form_lem (x ∷ y ∷ raw) rest h.1 k))
]

-- On an encoding of the path by bytes, the answer decodes to the path and is in canonical form.
pub normalize_raw_path-canonical :
    (raw path : Bytes)
    → All IsByte raw
    → unescape raw ≡ some path
    → (unescape (normalize_raw_path raw path).0 ≡ some path)
      × (is_canonical (normalize_raw_path raw path).0 ≡ true)
normalize_raw_path-canonical raw path h u =
    rw ((normalize_raw_path-cases raw path).0 u) (normal_form_lem raw path h u)
