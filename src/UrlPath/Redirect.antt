-- ===== src/UrlPath/Redirect.antt =====
-- escapeLeadingSlashes: the target of a redirect does not name another host.
use fox.Prelude.{
  ℕ, ◌<◌, ◌≡◌, refl, Bool, true, false, ◌&&◌, ◌||◌, some, [], ◌∷◌, ◌==◌, inl, inr, arith, length,
  Bytes, Bool-cases, ==_iff,
}
use fox.UrlPath.{escape_leading_slashes}
use fox.StringsUtil.{decode_hex_pair}
use fox.StringsUtil.Escape.{unescape, unescape-plain, unescape-hex}

unfoldable pub is_slash : ℕ → Bool
is_slash b = b == b'/' || b == b'\\'

-- A browser takes what is behind two leading slashes, of either kind, for a host.
unfoldable pub names_host : Bytes → Bool
unfolding is_slash
names_host [] = false
names_host (a ∷ []) = false
names_host (a ∷ b ∷ s) = is_slash a && is_slash b

slash-plain : (a : ℕ) → (a == b'\\' || a == b'/') ≡ true → (a == b'%') ≡ false
slash-plain a h = ground (arith, h)

-- The second byte escaped.
unescape-second :
    (a x y b c : ℕ) (s : Bytes)
    → (a == b'%') ≡ false
    → (b == b'%') ≡ false
    → decode_hex_pair x y ≡ some b
    → unescape (a ∷ b'%' ∷ x ∷ y ∷ c ∷ s) ≡ unescape (a ∷ b ∷ c ∷ s)
unescape-second a x y b c s h k d =
    rw
      (
        unescape-plain a (b'%' ∷ x ∷ y ∷ c ∷ s) h,
        unescape-plain a (b ∷ c ∷ s) h,
        unescape-hex x y b (c ∷ s) d,
        unescape-plain b (c ∷ s) k,
      )
      refl

-- On a target of more than two bytes, what escapeLeadingSlashes answers does not begin with two
-- slashes of either kind, and it decodes to what the target decodes to.
pub escape_leading_slashes_lem :
    (uri : Bytes)
    → 2 < length uri
    → (names_host (escape_leading_slashes uri) ≡ false)
      × (unescape (escape_leading_slashes uri) ≡ unescape uri)
unfolding escape_leading_slashes names_host decode_hex_pair
escape_leading_slashes_lem [] h = ground arith
escape_leading_slashes_lem (a ∷ []) h = ground arith
escape_leading_slashes_lem (a ∷ b ∷ []) h = ground arith
escape_leading_slashes_lem (a ∷ b ∷ c ∷ s) h = elim (Bool-cases (a == b'\\' || a == b'/')) [
  | inl e ↦ elim (Bool-cases (b == b'/')) [
    | inl f ↦
        rw (escape_leading_slashes, e, f)
          (
            ground arith,
            rw ((==_iff b b'/').0 f)
                (unescape-second a b'2' b'F' b'/' c s (slash-plain a e) refl refl),
          )
    | inr f ↦ elim (Bool-cases (b == b'\\')) [
      | inl g ↦
          rw (escape_leading_slashes, e, f, g)
            (
              ground arith,
              rw ((==_iff b b'\\').0 g)
                  (unescape-second a b'5' b'C' b'\\' c s (slash-plain a e) refl refl),
            )
      | inr g ↦ rw (escape_leading_slashes, e, f, g) (ground (arith, f, g), refl)
    ]
  ]
  | inr e ↦ rw (escape_leading_slashes, e) (ground (arith, e), refl)
]
