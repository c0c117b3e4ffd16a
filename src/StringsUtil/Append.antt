-- ===== src/StringsUtil/Append.antt =====
-- stringutils.go: texts in the canonical routing form, one after the other.
use fox.Prelude.{
  ℕ, ◌≡◌, sym, ◌∙◌, true, false, [], ◌∷◌, ◌++◌, ◌==◌, arith, Bytes, inl, inr, Bool-cases,
  Option-cases, ==_iff,
}
use fox.StringsUtil.{is_routable_raw, decode_hex_pair}
use fox.StringsUtil.Escape.{is_canonical, canonical-plain}

-- One byte, or one escape, in front of a canonical text.
canonical-byte :
    (c : ℕ) (a b : Bytes)
    → (c == b'%') ≡ false
    → is_canonical (c ∷ a) ≡ true
    → (is_canonical a ≡ true → is_canonical b ≡ true)
    → is_canonical (c ∷ b) ≡ true
canonical-byte c a b e h k =
    let p = sym (canonical-plain c a e) ∙ h in canonical-plain c b e ∙ ground (arith, p, k)

canonical-escape :
    (x y : ℕ) (a b : Bytes)
    → is_canonical (b'%' ∷ x ∷ y ∷ a) ≡ true
    → (is_canonical a ≡ true → is_canonical b ≡ true)
    → is_canonical (b'%' ∷ x ∷ y ∷ b) ≡ true
unfolding is_canonical
canonical-escape x y a b h k = elim (Option-cases (decode_hex_pair x y)) [
  | inl e ↦ ground (arith, (rw (is_canonical, e) at h))
  | inr (d, e) ↦ let p = rw (is_canonical, e) at h in rw (is_canonical, e) (ground (arith, p, k))
]

pub canonical-append :
    (a b : Bytes) → is_canonical a ≡ true → is_canonical b ≡ true → is_canonical (a ++ b) ≡ true
unfolding is_canonical is_routable_raw
canonical-append [] b h k = k
canonical-append (c ∷ []) b h k = elim (Bool-cases (c == b'%')) [
  | inl e ↦ ground (arith, (rw ((==_iff c b'%').0 e) at h))
  | inr e ↦ canonical-byte c [] b e h (λ _. k)
]
canonical-append (c ∷ x ∷ []) b h k = elim (Bool-cases (c == b'%')) [
  | inl e ↦ ground (arith, (rw ((==_iff c b'%').0 e) at h))
  | inr e ↦ canonical-byte c (x ∷ []) (x ∷ b) e h (λ q. canonical-append (x ∷ []) b q k)
]
canonical-append (c ∷ x ∷ y ∷ a) b h k = elim (Bool-cases (c == b'%')) [
  | inl e ↦
      let z = (==_iff c b'%').0 e in
      rw z (canonical-escape x y a (a ++ b) (rw z at h) (λ q. canonical-append a b q k))
  | inr e ↦
      canonical-byte c (x ∷ y ∷ a) (x ∷ y ∷ (a ++ b)) e h (λ q. canonical-append (x ∷ y ∷ a) b q k)
]
