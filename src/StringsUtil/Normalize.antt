-- ===== src/StringsUtil/Normalize.antt =====
-- NormalizeRawPath: it answers exactly for the encodings of the path, with a canonical one.
pub mod Answer
pub mod Canonical
use fox.Prelude.{
  ℕ, zero, suc, ◌+◌, ◌≡◌, ◌≢◌, refl, sym, subst, ap, ◌∙◌, Bool, true, false, ◌&&◌, not, Option,
  none, some, List, [], ◌∷◌, ◌++◌, ◌==◌, if◌then◌else◌, inl, inr, arith, Bytes, All, is_empty,
  Bool-cases, ==_iff, Option-cases, append-nil, append_assoc,
}
use mathlib.Core.Option
use fox.StringsUtil.{
  is_unreserved, is_routable_raw, decode_hex_pair, upper_hex, percent, Norm, put_plain, put_escape,
  expect, normalize_from, normalize_raw_path,
}
use fox.StringsUtil.Escape.{unescape, is_canonical, IsByte, unescape-plain, unescape-hex}

-- What is written for a byte, and for an escape of `b`.
unfoldable pub plain_text : ℕ → Bytes
plain_text c = if is_routable_raw c then c ∷ [] else percent c

unfoldable pub escape_text : ℕ → ℕ → ℕ → Bytes
escape_text x y b = if is_unreserved b then b ∷ [] else b'%' ∷ upper_hex x ∷ upper_hex y ∷ []

-- The normal form of an encoding, byte by byte.
unfoldable pub normal_form : Bytes → Bytes
unfolding plain_text escape_text decode_hex_pair
normal_form [] = []
normal_form (c ∷ []) = plain_text c
normal_form (c ∷ x ∷ []) = plain_text c ++ normal_form (x ∷ [])
normal_form (c ∷ x ∷ y ∷ s) =
    if c == b'%'
    then elim (decode_hex_pair x y) [ none ↦ [] | some b ↦ escape_text x y b ++ normal_form s ]
    else plain_text c ++ normal_form (x ∷ y ∷ s)

-- No byte outside the escapes must be escaped.
unfoldable pub has_routable_bytes : Bytes → Bool
has_routable_bytes [] = true
has_routable_bytes (c ∷ []) = is_routable_raw c
has_routable_bytes (c ∷ x ∷ []) = is_routable_raw c && has_routable_bytes (x ∷ [])
has_routable_bytes (c ∷ x ∷ y ∷ s) =
    if c == b'%' then has_routable_bytes s else is_routable_raw c && has_routable_bytes (x ∷ y ∷ s)

pub normal_form-plain :
    (c : ℕ) (s : Bytes) → (c == b'%') ≡ false → normal_form (c ∷ s) ≡ plain_text c ++ normal_form s
unfolding normal_form
normal_form-plain c [] h = sym (append-nil _)
normal_form-plain c (x ∷ []) h = refl
normal_form-plain c (x ∷ y ∷ s) h = rw h refl

pub normal_form-hex :
    (x y b : ℕ) (s : Bytes)
    → decode_hex_pair x y ≡ some b
    → normal_form (b'%' ∷ x ∷ y ∷ s) ≡ escape_text x y b ++ normal_form s
unfolding normal_form
normal_form-hex x y b s h = rw (normal_form, h) refl

routable-plain :
    (c : ℕ) (s : Bytes)
    → (c == b'%') ≡ false
    → has_routable_bytes (c ∷ s) ≡ (is_routable_raw c && has_routable_bytes s)
unfolding has_routable_bytes
routable-plain c [] h = ground arith
routable-plain c (x ∷ []) h = refl
routable-plain c (x ∷ y ∷ s) h = rw h refl

-- All that has been written or is pending.
abbrev pub view : Norm → Bytes
view s = s.buf ++ s.pending

is_empty-append : (a b : Bytes) → is_empty (a ++ b) ≡ true → is_empty b ≡ true
is_empty-append [] b h = h
is_empty-append (x ∷ a) b h = ground (arith, h)

-- What a step does: the text it adds, and what stays true of a buffer that is still empty.
abbrev Puts : Bytes → Bytes → Norm → Norm → Type 0
Puts raw text s t =
    (view t ≡ view s ++ text) × (is_empty t.buf ≡ true → (is_empty s.buf ≡ true) × (text ≡ raw))

put_plain-Puts : (c : ℕ) (s : Norm) → Puts (c ∷ []) (plain_text c) s (put_plain c s)
unfolding put_plain plain_text
put_plain-Puts c s = elim (Bool-cases (is_routable_raw c)) [
  | inl e ↦ rw e (sym (append_assoc s.buf s.pending (c ∷ [])), λ h. (h, refl))
  | inr e ↦ rw e (append-nil _, λ h. ground (arith, is_empty-append (s.buf ++ s.pending) _ h))
]

put_plain-well_formed :
    (c : ℕ) (s : Norm) → (put_plain c s).well_formed ≡ (s.well_formed && is_routable_raw c)
unfolding put_plain
put_plain-well_formed c s = elim (Bool-cases (is_routable_raw c)) [
  | inl e ↦ rw e (ground arith)
  | inr e ↦ rw e (ground arith)
]

put_escape-Puts :
    (x y b : ℕ) (s : Norm) → Puts (b'%' ∷ x ∷ y ∷ []) (escape_text x y b) s (put_escape x y b s)
unfolding put_escape escape_text
put_escape-Puts x y b s = elim (Bool-cases (is_unreserved b)) [
  | inl e ↦ rw e (append-nil _, λ h. ground (arith, is_empty-append (s.buf ++ s.pending) _ h))
  | inr e ↦ elim (Bool-cases (x == upper_hex x && y == upper_hex y)) [
    | inl f ↦
        let q : upper_hex x ≡ x = ground (arith, f) in
        let r : upper_hex y ≡ y = ground (arith, f) in
        rw (e, f)
          (
            sym (append_assoc s.buf s.pending _) ∙ ap (λ t. view s ++ t) (rw (q, r) refl),
            λ h. (h, rw (q, r) refl),
          )
    | inr f ↦
        rw (e, f) (append-nil _, λ h. ground (arith, is_empty-append (s.buf ++ s.pending) _ h))
  ]
]

put_escape-well_formed : (x y b : ℕ) (s : Norm) → (put_escape x y b s).well_formed ≡ s.well_formed
unfolding put_escape
put_escape-well_formed x y b s = ground arith

-- What a finished loop has established.
abbrev pub Sound : Bytes → Bytes → Norm → Norm → Type 0
Sound raw path s s' =
    (unescape raw ≡ some path)
    × (view s' ≡ view s ++ normal_form raw)
    × (s'.well_formed ≡ (s.well_formed && has_routable_bytes raw))
    × (is_empty s'.buf ≡ true → (is_empty s.buf ≡ true) × (normal_form raw ≡ raw))

expect-some :
    (b : ℕ) (path : Bytes) (next : Bytes → Option Norm) (s' : Norm)
    → expect b path next ≡ some s'
    → (rest : Bytes) × (path ≡ b ∷ rest) × (next rest ≡ some s')
unfolding expect
expect-some b [] next s' h = ground arith
expect-some b (d ∷ path) next s' h = elim (Bool-cases (d == b)) [
  | inl e ↦ (path, ap (λ y. y ∷ path) ((==_iff d b).0 e), rw e at h)
  | inr e ↦ ground (arith, e)
]

-- A step followed by a loop that is sound.
step-view :
    (pre raw text : Bytes) (s t s' : Norm)
    → Puts pre text s t
    → (view s' ≡ view t ++ normal_form raw)
    → (is_empty s'.buf ≡ true → (is_empty t.buf ≡ true) × (normal_form raw ≡ raw))
    → (view s' ≡ view s ++ (text ++ normal_form raw))
      × (is_empty s'.buf ≡ true → (is_empty s.buf ≡ true) × (text ++ normal_form raw ≡ pre ++ raw))
step-view pre raw text s t s' (p, q) v x = (
  v ∙ ap (λ z. z ++ normal_form raw) p ∙ append_assoc (view s) text (normal_form raw),
  λ h. let (y, z) = x h in let (y', z') = q y in (y', rw (z', z) refl),
)

plain-Sound :
    (c : ℕ) (raw path : Bytes) (s s' : Norm)
    → (c == b'%') ≡ false
    → expect c path (λ p. normalize_from raw p (put_plain c s)) ≡ some s'
    → ((p : Bytes)
        → normalize_from raw p (put_plain c s) ≡ some s'
        → Sound raw p (put_plain c s) s')
    → Sound (c ∷ raw) path s s'
plain-Sound c raw path s s' e h ih =
    let (rest, q, k) = expect-some c path _ s' h in
    let (u, v, w, x) = ih rest k in
    let (v', x') =
      step-view (c ∷ []) raw (plain_text c) s (put_plain c s) s' (put_plain-Puts c s) v x in
    (
      rw (unescape-plain c raw e, u, q) refl,
      rw (normal_form-plain c raw e) v',
      rw (w, put_plain-well_formed c s, routable-plain c raw e) (ground arith),
      rw (normal_form-plain c raw e) x',
    )

escape-Sound :
    (x y b : ℕ) (raw path : Bytes) (s s' : Norm)
    → decode_hex_pair x y ≡ some b
    → expect b path (λ p. normalize_from raw p (put_escape x y b s)) ≡ some s'
    → ((p : Bytes)
        → normalize_from raw p (put_escape x y b s) ≡ some s'
        → Sound raw p (put_escape x y b s) s')
    → Sound (b'%' ∷ x ∷ y ∷ raw) path s s'
escape-Sound x y b raw path s s' e h ih =
    let (rest, q, k) = expect-some b path _ s' h in
    let (u, v, w, z) = ih rest k in
    let (v', z') =
      step-view (b'%' ∷ x ∷ y ∷ []) raw (escape_text x y b) s (put_escape x y b s) s'
        (put_escape-Puts x y b s) v z in
    (
      rw (unescape-hex x y b raw e, u, q) refl,
      rw (normal_form-hex x y b raw e) v',
      unfold has_routable_bytes in rw (w, put_escape-well_formed x y b s) refl,
      rw (normal_form-hex x y b raw e) z',
    )

Sound-nil : (s : Norm) → Sound [] [] s s
unfolding unescape normal_form has_routable_bytes
Sound-nil s = (refl, sym (append-nil _), ground arith, λ k. (k, refl))

pub normalize_from-Sound :
    (raw path : Bytes) (s s' : Norm) → normalize_from raw path s ≡ some s' → Sound raw path s s'
unfolding normalize_from
normalize_from-Sound [] [] s s' h =
    subst (λ t. Sound [] [] s t) {x = s} {y = s'} (cc h) (Sound-nil s)
normalize_from-Sound [] (d ∷ path) s s' h = ground arith
normalize_from-Sound (c ∷ []) path s s' h = elim (Bool-cases (c == b'%')) [
  | inl e ↦ ground (arith, e)
  | inr e ↦ plain-Sound c [] path s s' e (rw e at h) (λ p k. normalize_from-Sound [] p _ s' k)
]
normalize_from-Sound (c ∷ x ∷ []) path s s' h = elim (Bool-cases (c == b'%')) [
  | inl e ↦ ground (arith, e)
  | inr e ↦
      plain-Sound c (x ∷ []) path s s' e (rw e at h) (λ p k. normalize_from-Sound (x ∷ []) p _ s' k)
]
normalize_from-Sound (c ∷ x ∷ y ∷ raw) path s s' h = elim (Bool-cases (c == b'%')) [
  | inl e ↦ elim (Option-cases (decode_hex_pair x y)) [
    | inl f ↦ ground (arith, (rw (e, f) at h))
    | inr (b, f) ↦
        subst (λ c'. Sound (c' ∷ x ∷ y ∷ raw) path s s') (sym ((==_iff c b'%').0 e))
          (escape-Sound x y b raw path s s' f (rw (e, f) at h)
            (λ p k. normalize_from-Sound raw p _ s' k))
  ]
  | inr e ↦
      plain-Sound c (x ∷ y ∷ raw) path s s' e (rw e at h)
        (λ p k. normalize_from-Sound (x ∷ y ∷ raw) p _ s' k)
]
