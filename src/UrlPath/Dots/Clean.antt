-- ===== src/UrlPath/Dots/Clean.antt =====
-- What CollapseDotSegments returns has no dot segment, and a change shows in the length.
use mathlib.Core.Option.{some_inj}
use fox.Prelude.{
  ℕ, suc, ◌+◌, ◌≤◌, ◌<◌, ◌≡◌, ◌≢◌, ◌⊎◌, refl, sym, ap, ◌∙◌, true, false, ◌||◌, Option, none, some,
  List, [], ◌∷◌, ◌++◌, arith, length, Bytes, All, inl, inr, Bool-cases, List-cases, length-append,
  append-nil, append_assoc,
}
use fox.UrlPath.Dots.{
  dot_index_from, dot_segment_index, has_dot_segment, Collapsed, collapsed, above_root, no_fuel,
  collapse_dot_segments,
}
use fox.UrlPath.Dots.Resolve.{split_slash, join, render, resolve, close, is_dot, is_dots, IsSegment}
use fox.UrlPath.Dots.Loop.{answer}
use fox.UrlPath.Dots.Index.{
  join-split_slash, split_slash-IsSegment, index-segment, index-nil, dot_segment_index-slash,
  collapse_dot_segments-resolve,
}

-- A segment that is neither "." nor "..".
abbrev IsKept : Bytes → Type 0
IsKept seg = IsSegment seg × (is_dot seg ≡ false) × (is_dots seg ≡ false)

index-kept :
    (i : ℕ) (segs : List Bytes) → All IsKept segs → dot_index_from i false (join segs) ≡ none
index-kept i [] h = index-nil i
index-kept i (seg ∷ segs) ((h, e, d), hs) =
    index-segment i seg segs h ∙ rw (e, d) (index-kept (i + suc (length seg)) segs hs)

index-render :
    (stack segs : List Bytes)
    → All IsKept stack
    → All IsKept segs
    → dot_index_from 0 false (render stack ++ join segs) ≡ none
index-render [] segs k h = index-kept 0 segs h
index-render (seg ∷ stack) segs (k, ks) h =
    rw (append_assoc (render stack) (b'/' ∷ seg) (join segs))
      (index-render stack (seg ∷ segs) ks (k, h))

close-IsKept : (stack segs : List Bytes) → All IsKept stack → All IsKept (close stack segs)
close-IsKept stack [] k = ((tt, refl, refl), k)
close-IsKept stack (seg ∷ segs) k = k

close-length :
    (stack segs : List Bytes) → length (render (close stack segs)) ≤ suc (length (render stack))
close-length stack [] = omega (arith, length-append (render stack) (b'/' ∷ []))
close-length stack (seg ∷ segs) = omega arith

dot-length : (seg : Bytes) → (is_dot seg || is_dots seg) ≡ true → 0 < length seg
dot-length [] h = ground (arith, h)
dot-length (x ∷ seg) h = omega arith

-- What a resolution has: its segments are kept, and it is what was there, or shorter.
abbrev Resolved : List Bytes → List Bytes → List Bytes → Type 0
Resolved stack segs stack' =
    All IsKept stack'
    × ((render stack' ≡ render stack ++ join segs)
        ⊎ (length (render stack') < length (render stack) + length (join segs)))

shorter :
    (stack segs : List Bytes) (n : ℕ) (stack' : List Bytes)
    → Resolved (close stack segs) segs stack'
    → length (render stack) + suc (length (join segs)) < n
    → length (render stack') < n
shorter stack segs n stack' (_, h) l = elim h [
  | inl e ↦ omega (
    arith,
    ap length e,
    length-append (render (close stack segs)) (join segs),
    close-length stack segs,
    l,
  )
  | inr e ↦ omega (arith, e, close-length stack segs, l)
]

resolve-Resolved :
    (stack segs stack' : List Bytes)
    → All IsKept stack
    → All IsSegment segs
    → resolve stack segs ≡ some stack'
    → Resolved stack segs stack'
unfolding resolve
resolve-Resolved stack [] stack' k h e = rw (sym (some_inj.0 e)) (k, inl (sym (append-nil _)))
resolve-Resolved stack (seg ∷ segs) stack' k (h, hs) e =
    let n = length-append seg (join segs) in
    elim (Bool-cases (is_dot seg)) [
      | inl d ↦
          let r =
            resolve-Resolved (close stack segs) segs stack' (close-IsKept stack segs k) hs
              (rw (resolve, d) at e) in
          (
            r.0,
            inr (
                shorter stack segs _ stack' r
                  (omega (arith, n, dot-length seg (ground (arith, d))))),
          )
      | inr d ↦ elim (Bool-cases (is_dots seg)) [
        | inl t ↦ elim (List-cases stack) [
          | inl z ↦ ground (arith, (rw (z, resolve, d, t) at e))
          | inr (top, below, z) ↦
              let r =
                resolve-Resolved (close below segs) segs stack'
                  (close-IsKept below segs (rw z at k).1) hs (rw (z, resolve, d, t) at e) in
              (
                r.0,
                inr (
                    shorter below segs _ stack' r (
                      omega (
                        arith,
                        n,
                        dot-length seg (ground (arith, t)),
                        length-append (render below) (b'/' ∷ top),
                        ap (λ st. length (render st)) z,
                      ))),
              )
        ]
        | inr t ↦
            let (r, c) =
              resolve-Resolved (seg ∷ stack) segs stack' ((h, d, t), k) hs
                (rw (resolve, d, t) at e) in
            (
              r,
              elim c [
                | inl q ↦ inl (q ∙ append_assoc (render stack) (b'/' ∷ seg) (join segs))
                | inr q ↦ inr (omega (arith, q, n, length-append (render stack) (b'/' ∷ seg)))
              ],
            )
      ]
    ]

-- The first byte is a slash.
rooted : (seg : Bytes) (stack : List Bytes) → (t : Bytes) × (render (seg ∷ stack) ≡ b'/' ∷ t)
rooted seg [] = (seg, refl)
rooted seg (top ∷ stack) =
    let (t, e) = rooted top stack in (t ++ b'/' ∷ seg, ap (λ r. r ++ b'/' ∷ seg) e)

close-nonempty : (stack segs : List Bytes) → close stack segs ≡ [] → segs ≢ []
close-nonempty stack [] e p = omega (arith, ap length e)
close-nonempty stack (seg ∷ segs) e p = omega (arith, ap length p)

resolve-nonempty :
    (stack segs : List Bytes) → resolve stack segs ≡ some [] → (stack ≡ []) × (segs ≡ [])
unfolding resolve
resolve-nonempty stack [] e = (some_inj.0 e, refl)
resolve-nonempty stack (seg ∷ segs) e = elim (Bool-cases (is_dot seg)) [
  | inl d ↦
      let (p, q) = resolve-nonempty (close stack segs) segs (rw (resolve, d) at e) in
      absurd (close-nonempty stack segs p q)
  | inr d ↦ elim (Bool-cases (is_dots seg)) [
    | inl t ↦ elim (List-cases stack) [
      | inl z ↦ ground (arith, (rw (z, resolve, d, t) at e))
      | inr (top, below, z) ↦
          let (p, q) = resolve-nonempty (close below segs) segs (rw (z, resolve, d, t) at e) in
          absurd (close-nonempty below segs p q)
    ]
    | inr t ↦
        let (p, _) = resolve-nonempty (seg ∷ stack) segs (rw (resolve, d, t) at e) in
        absurd (omega (arith, ap length p))
  ]
]

-- A segment that is neither "." nor "..".
abbrev pub IsPlain : Bytes → Type 0
IsPlain seg = (seg ≢ b'.' ∷ []) × (seg ≢ b'.' ∷ b'.' ∷ [])

IsPlain-segment : (seg : Bytes) → (is_dot seg || is_dots seg) ≡ false → IsPlain seg
IsPlain-segment seg h =
    (λ e. absurd (ground (arith, (rw e at h))), λ e. absurd (ground (arith, (rw e at h))))

index-IsPlain :
    (i : ℕ) (segs : List Bytes)
    → All IsSegment segs
    → dot_index_from i false (join segs) ≡ none
    → All IsPlain segs
index-IsPlain i [] h e = tt
index-IsPlain i (seg ∷ segs) (h, hs) e = elim (Bool-cases (is_dot seg || is_dots seg)) [
  | inl d ↦ absurd (ground (arith, (rw (index-segment i seg segs h, d) at e)))
  | inr d ↦ (
    IsPlain-segment seg d,
    index-IsPlain (i + suc (length seg)) segs hs (rw (index-segment i seg segs h, d) at e),
  )
]

-- A rooted path without dot segments, which is the given path or shorter.
abbrev pub IsClean : Bytes → Bytes → Type 0
IsClean path p =
    ((t : Bytes) × (p ≡ b'/' ∷ t) × All IsPlain (split_slash t))
    × (has_dot_segment p ≡ false)
    × (collapse_dot_segments p ≡ collapsed p)
    × ((p ≡ path) ⊎ (length p < length path))

split-nonempty : (s : Bytes) → split_slash s ≢ []
split-nonempty s e = omega (arith, ap length (sym (join-split_slash s) ∙ ap join e))

settled :
    (p : Bytes)
    → dot_segment_index p ≡ none
    → (has_dot_segment p ≡ false) × (collapse_dot_segments p ≡ collapsed p)
unfolding has_dot_segment collapse_dot_segments
settled p e = (rw (has_dot_segment, e) refl, rw (collapse_dot_segments, e) refl)

abbrev path_of : Collapsed → Bytes
path_of (collapsed p) = p
path_of above_root = []
path_of no_fuel = []

answer-some :
    (o : Option (List Bytes)) (p : Bytes)
    → answer o ≡ collapsed p
    → (stack : List Bytes) × (o ≡ some stack) × (render stack ≡ p)
answer-some none p e = ground (arith, e)
answer-some (some stack) p e = (stack, refl, ap path_of e)

-- What CollapseDotSegments returns for a path that begins with a slash begins with a slash; of its
-- segments none is "." or "..", and hasDotSegment finds none; it is returned for itself, and is the
-- path unless it is shorter.
pub collapse_dot_segments-IsClean :
    (s p : Bytes) → collapse_dot_segments (b'/' ∷ s) ≡ collapsed p → IsClean (b'/' ∷ s) p
collapse_dot_segments-IsClean s p e =
    let (stack, r, q) = answer-some _ p (sym (collapse_dot_segments-resolve s) ∙ e) in
    let (kept, change) = resolve-Resolved [] (split_slash s) stack tt (split_slash-IsSegment s) r in
    elim (List-cases stack) [
      | inl z ↦ absurd (split-nonempty s (resolve-nonempty [] (split_slash s) (r ∙ ap some z)).1)
      | inr (seg, below, z) ↦
          let (t, slash) = rooted seg below in
          let first : p ≡ b'/' ∷ t = sym q ∙ (ap render z ∙ slash) in
          let none_found : dot_segment_index p ≡ none =
            ap dot_segment_index first
            ∙ (dot_segment_index-slash t
                ∙ (ap (dot_index_from 0 false)
                      (sym first ∙ (sym q ∙ sym (append-nil (render stack))))
                    ∙ index-render stack [] kept tt)) in
          let (a, b) = settled p none_found in
          (
            (
              t,
              first,
              index-IsPlain 0 (split_slash t) (split_slash-IsSegment t) (
                  ap (dot_index_from 0 false) (join-split_slash t)
                  ∙ (sym (dot_segment_index-slash t)
                      ∙ (sym (ap dot_segment_index first) ∙ none_found))),
            ),
            a,
            b,
            elim change [
              | inl c ↦ inl (sym q ∙ (c ∙ join-split_slash s))
              | inr c ↦ inr (omega (arith, c, ap length q, ap length (join-split_slash s)))
            ],
          )
    ]
