-- ===== src/UrlPath/Merge.antt =====
-- MergeSlashes: what is written through the lazy buffer, and what the merged path is.
use fox.Prelude.{
  ℕ, zero, suc, ◌+◌, ◌-◌, ◌<◌, ◌≤◌, ◌≡◌, ◌⊎◌, ◌↔◌, subst, inl, inr, refl, sym, ap, ◌∙◌, true, false,
  ◌&&◌, none, some, List, [], ◌∷◌, ◌++◌, ◌==◌, if◌then◌else◌, arith, length, get_or, take, drop,
  Bytes, is_empty, Bool-cases, Option-cases, append-nil, append_assoc, ==_iff, length-append,
  length-take, length-drop,
}
use fox.UrlPath.{set_byte, zeros, buf_app, written, first_double, merge_from, merge_slashes}

-- A buffer that the loop can have.
abbrev pub Fits : Bytes → Bytes → Type 0
Fits s buf = (is_empty buf ≡ true) ⊎ (length buf ≡ length s)

length-set_byte : (b : Bytes) (w c : ℕ) → length (set_byte b w c) ≡ length b
length-set_byte [] w c = refl
length-set_byte (x ∷ b) zero c = refl
length-set_byte (x ∷ b) (suc w) c = ap suc (length-set_byte b w c)

length-zeros : (n : ℕ) → length (zeros n) ≡ n
length-zeros zero = refl
length-zeros (suc n) = ap suc (length-zeros n)

take-set_byte :
    (b : Bytes) (w c : ℕ) → w < length b → take (suc w) (set_byte b w c) ≡ take w b ++ c ∷ []
take-set_byte [] w c h = ground arith
take-set_byte (x ∷ b) zero c h = refl
take-set_byte (x ∷ b) (suc w) c h = ap (λ r. x ∷ r) (take-set_byte b w c (omega arith))

take-suc : (s : Bytes) (w : ℕ) → w < length s → take (suc w) s ≡ take w s ++ get_or s w 0 ∷ []
take-suc [] w h = ground arith
take-suc (x ∷ s) zero h = refl
take-suc (x ∷ s) (suc w) h = ap (λ r. x ∷ r) (take-suc s w (omega arith))

take-prefix : (s b : Bytes) (w : ℕ) → w ≤ length s → take w (take w s ++ b) ≡ take w s
take-prefix s b zero h = refl
take-prefix [] b (suc w) h = ground arith
take-prefix (x ∷ s) b (suc w) h = ap (λ r. x ∷ r) (take-prefix s b w (omega arith))

length-fresh :
    (s : Bytes) (w : ℕ) → w < length s → length (take w s ++ zeros (length s - w)) ≡ length s
length-fresh s w h = omega (
  arith,
  length-append (take w s) (zeros (length s - w)),
  length-take w s,
  length-zeros (length s - w),
)

filled : (b : Bytes) (w : ℕ) → w < length b → is_empty b ≡ false
filled [] w h = ground arith
filled (x ∷ b) w h = refl

-- bufApp appends one byte to what is written.
pub written-buf_app :
    (s buf : Bytes) (w c : ℕ)
    → w < length s
    → Fits s buf
    → (written s (buf_app buf s w c) (suc w) ≡ written s buf w ++ c ∷ [])
      × Fits s (buf_app buf s w c)
unfolding buf_app
written-buf_app s buf w c h fits = elim (Bool-cases (is_empty buf)) [
  | inl e ↦ elim (Bool-cases (get_or s w 0 == c)) [
    | inl f ↦
        rw (e, f, e) (take-suc s w h ∙ ap (λ d. take w s ++ d ∷ []) ((==_iff _ c).0 f), inl refl)
    | inr f ↦
        let fresh = take w s ++ zeros (length s - w) in
        let n : length (set_byte fresh w c) ≡ length s =
          length-set_byte fresh w c ∙ length-fresh s w h in
        rw (e, f, filled (set_byte fresh w c) w (omega (arith, n)))
          (
            take-set_byte fresh w c (omega (arith, length-fresh s w h))
                ∙ ap (λ p. p ++ c ∷ []) (take-prefix s (zeros (length s - w)) w (omega arith)),
            inr n,
          )
  ]
  | inr e ↦
      let m : length buf ≡ length s = ground (arith, fits, e) in
      let n : length (set_byte buf w c) ≡ length s = length-set_byte buf w c ∙ m in
      rw (e, filled (set_byte buf w c) w (omega (arith, n)))
        (take-set_byte buf w c (omega (arith, m)), inr n)
]

-- The path without its slashes that come after a slash; `prev` is the byte before.
unfoldable pub squeeze_after : ℕ → Bytes → Bytes
squeeze_after prev [] = []
squeeze_after prev (c ∷ s) =
    if c == b'/' && prev == b'/' then squeeze_after c s else c ∷ squeeze_after c s

unfoldable pub squeeze : Bytes → Bytes
unfolding squeeze_after
squeeze [] = []
squeeze (c ∷ s) = c ∷ squeeze_after c s

merge_from-written :
    (s : Bytes) (prev : ℕ) (rest buf : Bytes) (w : ℕ)
    → w + length rest ≤ length s
    → Fits s buf
    → written s (merge_from s prev rest buf w).0 (merge_from s prev rest buf w).1
      ≡ written s buf w ++ squeeze_after prev rest
unfolding merge_from squeeze_after
merge_from-written s prev [] buf w h fits = sym (append-nil _)
merge_from-written s prev (c ∷ rest) buf w h fits = elim (Bool-cases (c == b'/' && prev == b'/')) [
  | inl e ↦ rw (merge_from, squeeze_after, e) (merge_from-written s c rest buf w (omega arith) fits)
  | inr e ↦
      let (v, fits') = written-buf_app s buf w c (omega arith) fits in
      rw (merge_from, squeeze_after, e)
        (merge_from-written s c rest (buf_app buf s w c) (suc w) (omega arith) fits'
          ∙ rw v (append_assoc (written s buf w) (c ∷ []) (squeeze_after c rest)))
]

first_double-none : (c : ℕ) (s : Bytes) → first_double (c ∷ s) ≡ none → squeeze_after c s ≡ s
unfolding first_double squeeze_after
first_double-none c [] h = refl
first_double-none c (d ∷ s) h = elim (Bool-cases (d == b'/' && c == b'/')) [
  | inl e ↦ ground (arith, (rw (first_double, e) at h))
  | inr e ↦ elim (Option-cases (first_double (d ∷ s))) [
    | inl f ↦ rw e (ap (λ r. d ∷ r) (first_double-none d s f))
    | inr (i, f) ↦ ground (arith, (rw (first_double, e, f) at h))
  ]
]

-- Up to the first double, squeezing changes nothing.
first_double-some :
    (c : ℕ) (s : Bytes) (i : ℕ)
    → first_double (c ∷ s) ≡ some i
    → (suc i ≤ length s)
      × (take (suc i) (c ∷ s) ++ squeeze_after (get_or (c ∷ s) i 0) (drop i s)
          ≡ c ∷ squeeze_after c s)
unfolding first_double squeeze_after
first_double-some c [] i h = ground (arith, h)
first_double-some c (d ∷ s) i h = elim (Bool-cases (d == b'/' && c == b'/')) [
  | inl e ↦
      let z : i ≡ zero = ground (arith, (rw (first_double, e) at h)) in rw z (omega arith, refl)
  | inr e ↦ elim (Option-cases (first_double (d ∷ s))) [
    | inl f ↦ ground (arith, (rw (first_double, e, f) at h))
    | inr (j, f) ↦
        let z : i ≡ suc j = ground (arith, (rw (first_double, e, f) at h)) in
        let (k, q) = first_double-some d s j f in rw (z, e) (omega (arith, k), ap (λ r. c ∷ r) q)
  ]
]

-- MergeSlashes, its buffer included, leaves out each slash that comes after a slash, and nothing else.
pub merge_slashes-squeeze : (path : Bytes) → merge_slashes path ≡ squeeze path
unfolding merge_slashes squeeze
merge_slashes-squeeze [] = unfold first_double in refl
merge_slashes-squeeze (c ∷ s) = elim (Option-cases (first_double (c ∷ s))) [
  | inl e ↦ rw (merge_slashes, e) (ap (λ r. c ∷ r) (sym (first_double-none c s e)))
  | inr (i, e) ↦
      let (k, q) = first_double-some c s i e in
      rw (merge_slashes, e)
        (merge_from-written (c ∷ s) (get_or (c ∷ s) i 0) (drop i s) [] (suc i)
            (omega (arith, length-drop i s, k)) (inl refl)
          ∙ q)
]

-- The segments of a path that are not empty; `cur` is the one that is being read.
abbrev closed : Bytes → List Bytes
closed [] = []
closed (c ∷ cur) = (c ∷ cur) ∷ []

unfoldable pub segments_from : Bytes → Bytes → List Bytes
segments_from cur [] = closed cur
segments_from cur (c ∷ s) =
    if c == b'/' then closed cur ++ segments_from [] s else segments_from (cur ++ c ∷ []) s

abbrev pub segments : Bytes → List Bytes
segments path = segments_from [] path

squeeze_after-segments :
    (cur : Bytes) (prev : ℕ) (s : Bytes)
    → ((prev == b'/') ≡ true → cur ≡ [])
    → segments_from cur (squeeze_after prev s) ≡ segments_from cur s
unfolding segments_from squeeze_after
squeeze_after-segments cur prev [] h = refl
squeeze_after-segments cur prev (c ∷ s) h = elim (Bool-cases (c == b'/')) [
  | inl e ↦ elim (Bool-cases (prev == b'/')) [
    | inl f ↦ rw (squeeze_after, e, f, h f) (squeeze_after-segments [] c s (λ k. refl))
    | inr f ↦
        rw (squeeze_after, e, f, segments_from, e)
          (ap (λ r. closed cur ++ r) (squeeze_after-segments [] c s (λ k. refl)))
  ]
  | inr e ↦
      rw (squeeze_after, e, segments_from, e)
        (squeeze_after-segments (cur ++ c ∷ []) c s (λ k. ground (arith, k, e)))
]

squeeze_after-single : (prev : ℕ) (s : Bytes) → first_double (prev ∷ squeeze_after prev s) ≡ none
unfolding squeeze_after first_double
squeeze_after-single prev [] = refl
squeeze_after-single prev (c ∷ s) = elim (Bool-cases (c == b'/' && prev == b'/')) [
  | inl e ↦
      let z : prev ≡ c = ground (arith, e) in rw (squeeze_after, e, z) (squeeze_after-single c s)
  | inr e ↦ rw (squeeze_after, e, e, squeeze_after-single c s) refl
]

squeeze-single : (path : Bytes) → first_double (squeeze path) ≡ none
unfolding squeeze
squeeze-single [] = unfold first_double in refl
squeeze-single (c ∷ s) = squeeze_after-single c s

squeeze-segments : (path : Bytes) → segments (squeeze path) ≡ segments path
unfolding squeeze segments_from
squeeze-segments [] = refl
squeeze-segments (c ∷ s) = elim (Bool-cases (c == b'/')) [
  | inl e ↦ rw (segments_from, e) (squeeze_after-segments [] c s (λ k. refl))
  | inr e ↦ rw (segments_from, e) (squeeze_after-segments (c ∷ []) c s (λ k. ground (arith, k, e)))
]

-- No slash stands after a slash.
abbrev pub AreSingle : Bytes → Type 0
AreSingle [] = Unit
AreSingle (c ∷ []) = Unit
AreSingle (c ∷ d ∷ s) = ¬ ((c ≡ b'/') × (d ≡ b'/')) × AreSingle (d ∷ s)

first_double-AreSingle : (path : Bytes) → first_double path ≡ none → AreSingle path
unfolding first_double
first_double-AreSingle [] h = tt
first_double-AreSingle (c ∷ []) h = tt
first_double-AreSingle (c ∷ d ∷ s) h = elim (Bool-cases (d == b'/' && c == b'/')) [
  | inl e ↦ ground (arith, (rw (first_double, e) at h))
  | inr e ↦ elim (Option-cases (first_double (d ∷ s))) [
    | inl f ↦ (λ (p, q). absurd (ground (arith, e, p, q)), first_double-AreSingle (d ∷ s) f)
    | inr (i, f) ↦ ground (arith, (rw (first_double, e, f) at h))
  ]
]

AreSingle-first_double : (path : Bytes) → AreSingle path → first_double path ≡ none
unfolding first_double
AreSingle-first_double [] h = refl
AreSingle-first_double (c ∷ []) h = refl
AreSingle-first_double (c ∷ d ∷ s) (n, h) = elim (Bool-cases (d == b'/' && c == b'/')) [
  | inl e ↦ absurd (n (ground (arith, e), ground (arith, e)))
  | inr e ↦ rw (first_double, e, AreSingle-first_double (d ∷ s) h) refl
]

merge_slashes-single : (path : Bytes) → first_double path ≡ none → merge_slashes path ≡ path
unfolding merge_slashes
merge_slashes-single path h = rw (merge_slashes, h) refl

-- The merged path has no slash after another, and the same segments as the path; and exactly the paths
-- without such slashes are left as they are.
pub merge_slashes-clean :
    (path : Bytes)
    → AreSingle (merge_slashes path)
      × (segments (merge_slashes path) ≡ segments path)
      × (AreSingle path ↔ (merge_slashes path ≡ path))
merge_slashes-clean path =
    let single : AreSingle (merge_slashes path) =
      rw (merge_slashes-squeeze path) (first_double-AreSingle _ (squeeze-single path)) in
    (
      single,
      rw (merge_slashes-squeeze path) (squeeze-segments path),
      (
        λ h. merge_slashes-single path (AreSingle-first_double path h),
        λ e. subst AreSingle e single,
      ),
    )
