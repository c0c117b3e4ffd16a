-- ===== src/StringsUtil/Escape.antt =====
-- EscapePath: the escaped path decodes to the path, and is in canonical form.
use fox.Prelude.{
  ℕ, suc, ◌+◌, ◌*◌, ◌/◌, ◌%◌, ◌<◌, ◌≡◌, ◌≢◌, ◌⊎◌, refl, sym, ap, Bool, true, false, ◌&&◌, not,
  Option, none, some, [], ◌∷◌, ◌==◌, if◌then◌else◌, inl, inr, arith, length, Bytes, All, beq,
  beq_iff, Bool-cases, ==_iff,
}
use mathlib.Core.Option
use fox.StringsUtil.{
  is_unreserved, path_no_escape, is_routable_raw, decode_hex_pair, upper_hex, upper_hex_digit,
  clean_prefix, hex_count, required, escape_rest, escape_into, escape_path,
}

-- Percent-decoding, for reference: `none` on a malformed escape.
unfoldable pub unescape : Bytes → Option Bytes
unfolding decode_hex_pair
unescape [] = some []
unescape (c ∷ []) = if c == b'%' then none else some (c ∷ [])
unescape (c ∷ x ∷ []) = if c == b'%' then none else Option.map (λ r. c ∷ r) (unescape (x ∷ []))
unescape (c ∷ x ∷ y ∷ s) =
    if c == b'%'
    then elim (decode_hex_pair x y) [ none ↦ none | some b ↦ Option.map (λ r. b ∷ r) (unescape s) ]
    else Option.map (λ r. c ∷ r) (unescape (x ∷ y ∷ s))

-- The canonical routing form: routable bytes, and escapes in upper case of bytes that must be
-- escaped, or of reserved ones.
unfoldable pub is_canonical : Bytes → Bool
unfolding decode_hex_pair
is_canonical [] = true
is_canonical (c ∷ []) = is_routable_raw c
is_canonical (c ∷ x ∷ []) = is_routable_raw c && is_canonical (x ∷ [])
is_canonical (c ∷ x ∷ y ∷ s) =
    if c == b'%'
    then elim (decode_hex_pair x y) [
      | none ↦ false
      | some b ↦ not (is_unreserved b) && x == upper_hex x && y == upper_hex y && is_canonical s
    ]
    else is_routable_raw c && is_canonical (x ∷ y ∷ s)

abbrev pub IsByte : ℕ → Type 0
IsByte c = c < 256

pub percent-hex :
    (c : ℕ)
    → IsByte c
    → decode_hex_pair (upper_hex_digit (c / 16)) (upper_hex_digit (c % 16)) ≡ some c
unfolding decode_hex_pair upper_hex_digit
percent-hex c h = ground arith

-- The digits of an escape are in upper case, and the escaped byte is the one meant.
pub percent-upper :
    (c : ℕ)
    → IsByte c
    → (upper_hex_digit (c / 16) == upper_hex (upper_hex_digit (c / 16))) ≡ true
      × ((upper_hex_digit (c % 16) == upper_hex (upper_hex_digit (c % 16))) ≡ true)
unfolding upper_hex_digit upper_hex
percent-upper c h = ground arith

pub no_escape-ne : (c : ℕ) → path_no_escape c ≡ true → (c == b'%') ≡ false
unfolding path_no_escape
no_escape-ne c h = ground arith

pub no_escape-routable : (c : ℕ) → path_no_escape c ≡ true → is_routable_raw c ≡ true
unfolding is_routable_raw
no_escape-routable c h = ground arith

pub unreserved-no_escape : (c : ℕ) → is_unreserved c ≡ true → path_no_escape c ≡ true
unfolding path_no_escape
unreserved-no_escape c h = ground arith

pub not_unreserved : (c : ℕ) → path_no_escape c ≡ false → is_unreserved c ≡ false
unfolding path_no_escape
not_unreserved c h = ground arith

pub not_no_escape : (c : ℕ) → is_routable_raw c ≡ false → path_no_escape c ≡ false
unfolding is_routable_raw
not_no_escape c h = ground arith

pub unescape-plain :
    (c : ℕ) (s : Bytes)
    → (c == b'%') ≡ false
    → unescape (c ∷ s) ≡ Option.map (λ r. c ∷ r) (unescape s)
unfolding unescape
unescape-plain c [] h = rw h refl
unescape-plain c (x ∷ []) h = rw h refl
unescape-plain c (x ∷ y ∷ s) h = rw h refl

pub unescape-hex :
    (x y b : ℕ) (s : Bytes)
    → decode_hex_pair x y ≡ some b
    → unescape (b'%' ∷ x ∷ y ∷ s) ≡ Option.map (λ r. b ∷ r) (unescape s)
unfolding unescape
unescape-hex x y b s h = rw (unescape, h) refl

pub canonical-plain :
    (c : ℕ) (s : Bytes)
    → (c == b'%') ≡ false
    → is_canonical (c ∷ s) ≡ (is_routable_raw c && is_canonical s)
unfolding is_canonical
canonical-plain c [] h = ground arith
canonical-plain c (x ∷ []) h = refl
canonical-plain c (x ∷ y ∷ s) h = rw h refl

pub canonical-hex :
    (x y b : ℕ) (s : Bytes)
    → decode_hex_pair x y ≡ some b
    → is_unreserved b ≡ false
    → (x == upper_hex x) ≡ true
    → (y == upper_hex y) ≡ true
    → is_canonical (b'%' ∷ x ∷ y ∷ s) ≡ is_canonical s
unfolding is_canonical
canonical-hex x y b s h u p q = rw (is_canonical, h, u, p, q) refl

unescape-escape_rest : (s : Bytes) → All IsByte s → unescape (escape_rest s) ≡ some s
unfolding escape_rest
unescape-escape_rest [] h = unfold unescape in refl
unescape-escape_rest (c ∷ s) (h, hs) = elim (Bool-cases (path_no_escape c)) [
  | inl e ↦
      rw (e, unescape-plain c (escape_rest s) (no_escape-ne c e), unescape-escape_rest s hs) refl
  | inr e ↦
      rw (e, unescape-hex _ _ c (escape_rest s) (percent-hex c h), unescape-escape_rest s hs) refl
]

canonical-escape_rest : (s : Bytes) → All IsByte s → is_canonical (escape_rest s) ≡ true
unfolding escape_rest
canonical-escape_rest [] h = unfold is_canonical in refl
canonical-escape_rest (c ∷ s) (h, hs) = elim (Bool-cases (path_no_escape c)) [
  | inl e ↦
      rw
        (
          e,
          canonical-plain c (escape_rest s) (no_escape-ne c e),
          no_escape-routable c e,
          canonical-escape_rest s hs,
        )
        refl
  | inr e ↦
      rw
        (
          e,
          canonical-hex _ _ c (escape_rest s) (percent-hex c h) (not_unreserved c e)
              (percent-upper c h).0 (percent-upper c h).1,
          canonical-escape_rest s hs,
        )
        refl
]

escape_into-eq : (s : Bytes) → escape_into s (clean_prefix s) ≡ escape_rest s
unfolding escape_into escape_rest clean_prefix
escape_into-eq [] = refl
escape_into-eq (c ∷ s) = elim (Bool-cases (path_no_escape c)) [
  | inl e ↦ rw e (ap (λ r. c ∷ r) (escape_into-eq s))
  | inr e ↦ rw (e, escape_rest, e) refl
]

clean_prefix-full : (s : Bytes) → clean_prefix s ≡ length s → escape_rest s ≡ s
unfolding escape_rest clean_prefix
clean_prefix-full [] h = refl
clean_prefix-full (c ∷ s) h = elim (Bool-cases (path_no_escape c)) [
  | inl e ↦ rw e (ap (λ r. c ∷ r) (clean_prefix-full s (ground (arith, e))))
  | inr e ↦ ground (arith, e)
]

-- The escaped path: each byte that needs it is escaped, but for the path "*".
escape_path-cases :
    (path : Bytes)
    → (escape_path path ≡ escape_rest path) ⊎ ((path ≡ b'*' ∷ []) × (escape_path path ≡ b'*' ∷ []))
unfolding escape_path
escape_path-cases path = elim (Bool-cases (clean_prefix path == length path)) [
  | inl e ↦ inl (rw e (sym (clean_prefix-full path ((==_iff _ _).0 e))))
  | inr e ↦ elim (Bool-cases (beq path (b'*' ∷ []))) [
    | inl f ↦ inr ((beq_iff path (b'*' ∷ [])).0 f, rw (e, f) refl)
    | inr f ↦ inl (rw (e, f) (escape_into-eq path))
  ]
]

-- EscapePath gives an encoding of the path in canonical form: it decodes to the path.
pub escape_path-canonical :
    (path : Bytes)
    → All IsByte path
    → (unescape (escape_path path) ≡ some path) × (is_canonical (escape_path path) ≡ true)
escape_path-canonical path h = elim (escape_path-cases path) [
  | inl e ↦ rw e (unescape-escape_rest path h, canonical-escape_rest path h)
  | inr (p, e) ↦ rw (e, p) (unfold unescape in refl, unfold is_canonical is_routable_raw in refl)
]

length-escape_rest :
    (n : ℕ) (s : Bytes) → length (escape_rest s) + 2 * n ≡ length s + 2 * hex_count n s
unfolding escape_rest hex_count
length-escape_rest n [] = refl
length-escape_rest n (c ∷ s) = elim (Bool-cases (path_no_escape c)) [
  | inl e ↦ rw (hex_count, e) (omega (arith, length-escape_rest n s))
  | inr e ↦ rw (hex_count, e) (omega (arith, length-escape_rest (suc n) s))
]

-- Where a byte of the path must be escaped, escapeInto writes as many bytes as EscapePath makes room
-- for, which counts that byte without a test and looks at the bytes behind it.
pub length-escape_into :
    (path : Bytes)
    → clean_prefix path ≢ length path
    → length (escape_into path (clean_prefix path)) ≡ required path (clean_prefix path)
unfolding escape_into clean_prefix required escape_rest
length-escape_into [] h = absurd (h refl)
length-escape_into (c ∷ s) h = elim (Bool-cases (path_no_escape c)) [
  | inl e ↦
      let ih = length-escape_into s (λ k. h (rw (clean_prefix, e) (ap suc k))) in
      let q : clean_prefix (c ∷ s) ≡ suc (clean_prefix s) = rw (clean_prefix, e) refl in
      rw q (omega (arith, ih))
  | inr e ↦ rw (clean_prefix, e, escape_rest, e) (omega (arith, length-escape_rest 1 s))
]
