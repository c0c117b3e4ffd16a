-- ===== src/UrlPath/Dots/Index.antt =====
-- dotSegmentIndex, on a path cut into segments, and the theorems on CollapseDotSegments.
use fox.Prelude.{
  ℕ, suc, ◌+◌, ◌≡◌, refl, sym, ap, ◌∙◌, true, false, ◌||◌, none, some, List, [], ◌∷◌, ◌++◌, ◌==◌,
  if◌then◌else◌, arith, length, take, drop, Bytes, All, inl, inr, Bool-cases, Option-cases,
  length-append, append-nil, append_assoc, take-length_append, drop-length_append, ==_iff,
}
use fox.UrlPath.Dots.{
  one_dot, two_dots, dot_index_from, dot_segment_index, collapsed, collapse_loop,
  collapse_dot_segments,
}
use fox.UrlPath.Dots.Resolve.{split_slash, join, render, resolve, is_dot, is_dots, IsSegment}
use fox.UrlPath.Dots.Round.{slash-two_dots, at_end-join, one_dot-seg, two_dots-seg}
use fox.UrlPath.Dots.Loop.{answer, loop-resolve}

-- A path that begins with a slash is its segments, each behind a slash.
pub join-split_slash : (s : Bytes) → join (split_slash s) ≡ b'/' ∷ s
unfolding split_slash
join-split_slash [] = refl
join-split_slash (c ∷ s) = elim (Bool-cases (c == b'/')) [
  | inl e ↦ rw (split_slash, e, join-split_slash s, (==_iff c b'/').0 e) refl
  | inr e ↦ rw (split_slash, e) (first (split_slash s) (join-split_slash s))
]
  where
    first :
        (segs : List Bytes)
        → join segs ≡ b'/' ∷ s
        → join (elim segs [ [] ↦ (c ∷ []) ∷ [] | seg ∷ more ↦ (c ∷ seg) ∷ more ]) ≡ b'/' ∷ c ∷ s
    first [] h = ground (arith, h)
    first (seg ∷ more) h = ap (λ r. b'/' ∷ c ∷ drop 1 r) h

pub split_slash-IsSegment : (s : Bytes) → All IsSegment (split_slash s)
unfolding split_slash
split_slash-IsSegment [] = (tt, tt)
split_slash-IsSegment (c ∷ s) = elim (Bool-cases (c == b'/')) [
  | inl e ↦ rw (split_slash, e) (tt, split_slash-IsSegment s)
  | inr e ↦ rw (split_slash, e) (first (split_slash s) (split_slash-IsSegment s) e)
]
  where
    first :
        (segs : List Bytes)
        → All IsSegment segs
        → (c == b'/') ≡ false
        → All IsSegment (elim segs [ [] ↦ (c ∷ []) ∷ [] | seg ∷ more ↦ (c ∷ seg) ∷ more ])
    first [] h e = ((e, tt), tt)
    first (seg ∷ more) (h, hs) e = ((e, h), hs)

-- Inside a segment no dot segment begins.
index-inside :
    (i : ℕ) (seg rest : Bytes)
    → IsSegment seg
    → dot_index_from i false (seg ++ rest) ≡ dot_index_from (i + length seg) false rest
unfolding dot_index_from
index-inside i [] rest h = ap (λ n. dot_index_from n false rest) (omega arith)
index-inside i (c ∷ seg) rest (h, hs) =
    rw (dot_index_from, h)
      (index-inside (suc i) seg rest hs ∙ ap (λ n. dot_index_from n false rest) (omega arith))

index-step : (i : ℕ) (s : Bytes) → dot_index_from i false (b'/' ∷ s) ≡ dot_index_from (suc i) true s
index-step i s = unfold dot_index_from in refl

pub index-nil : (i : ℕ) → dot_index_from i false [] ≡ none
index-nil i = unfold dot_index_from in refl

-- Where a segment begins.
index-begin :
    (i : ℕ) (s : Bytes)
    → dot_index_from (suc i) true s
      ≡ (if one_dot s || two_dots s then some i else dot_index_from (suc i) false s)
unfolding dot_index_from
index-begin i [] = refl
index-begin i (c ∷ s) = elim (Bool-cases (one_dot (c ∷ s) || two_dots (c ∷ s))) [
  | inl e ↦ rw (dot_index_from, e) (ap some (omega arith))
  | inr e ↦ rw (dot_index_from, e) refl
]

pub index-segment :
    (i : ℕ) (seg : Bytes) (segs : List Bytes)
    → IsSegment seg
    → dot_index_from i false (join (seg ∷ segs)) ≡ (
        if is_dot seg || is_dots seg
        then some i
        else dot_index_from (i + suc (length seg)) false (join segs))
index-segment i seg segs h =
    index-step i (seg ++ join segs)
    ∙ (index-begin i (seg ++ join segs)
        ∙ rw
            (
              one_dot-seg (join segs) (at_end-join segs) seg h,
              two_dots-seg (join segs) (at_end-join segs) seg h,
            )
            (ap (λ r. if is_dot seg || is_dots seg then some i else r)
              (index-inside (suc i) seg (join segs) h
                ∙ ap (λ n. dot_index_from n false (join segs)) (omega arith))))

resolve-keep :
    (stack : List Bytes) (seg : Bytes) (segs : List Bytes)
    → is_dot seg ≡ false
    → is_dots seg ≡ false
    → resolve stack (seg ∷ segs) ≡ resolve (seg ∷ stack) segs
unfolding resolve
resolve-keep stack seg segs e d = rw (resolve, e, d) refl

-- Without an index nothing changes.
index-none :
    (i : ℕ) (stack segs : List Bytes)
    → All IsSegment segs
    → dot_index_from i false (join segs) ≡ none
    → (stack' : List Bytes) × (resolve stack segs ≡ some stack')
      × (render stack' ≡ render stack ++ join segs)
index-none i stack [] h e = (stack, unfold resolve in refl, sym (append-nil _))
index-none i stack (seg ∷ segs) (h, hs) e = elim (Bool-cases (is_dot seg || is_dots seg)) [
  | inl d ↦ ground (arith, (rw (index-segment i seg segs h, d) at e))
  | inr d ↦
      let (stack', p, q) =
        index-none (i + suc (length seg)) (seg ∷ stack) segs hs
          (rw (index-segment i seg segs h, d) at e) in
      (
        stack',
        resolve-keep stack seg segs (ground (arith, d)) (ground (arith, d)) ∙ p,
        q ∙ append_assoc (render stack) (b'/' ∷ seg) (join segs),
      )
]

-- The segments in front of the index are kept; what is left begins there.
abbrev Skips : List Bytes → List Bytes → ℕ → ℕ → Type 0
Skips stack segs i j =
    (front : Bytes) × (stack' segs' : List Bytes) × (join segs ≡ front ++ join segs')
    × (render stack' ≡ render stack ++ front)
    × (j ≡ i + length front)
    × All IsSegment stack'
    × All IsSegment segs'
    × (resolve stack segs ≡ resolve stack' segs')

index-some :
    (i j : ℕ) (stack segs : List Bytes)
    → All IsSegment segs
    → All IsSegment stack
    → dot_index_from i false (join segs) ≡ some j
    → Skips stack segs i j
index-some i j stack [] h k e = ground (arith, sym (index-nil i) ∙ e)
index-some i j stack (seg ∷ segs) (h, hs) k e = elim (Bool-cases (is_dot seg || is_dots seg)) [
  | inl d ↦ (
    [],
    stack,
    seg ∷ segs,
    refl,
    sym (append-nil _),
    ground (arith, (rw (index-segment i seg segs h, d) at e)),
    k,
    (h, hs),
    refl,
  )
  | inr d ↦
      let (front, stack', segs', p, q, l, k', h', r) =
        index-some (i + suc (length seg)) j (seg ∷ stack) segs hs (h, k)
          (rw (index-segment i seg segs h, d) at e) in
      (
        b'/' ∷ (seg ++ front),
        stack',
        segs',
        ap (λ t. b'/' ∷ (seg ++ t)) p
            ∙ ap (λ t. b'/' ∷ t) (sym (append_assoc seg front (join segs'))),
        q ∙ append_assoc (render stack) (b'/' ∷ seg) front,
        omega (arith, l, length-append seg front),
        k',
        h',
        resolve-keep stack seg segs (ground (arith, d)) (ground (arith, d)) ∙ r,
      )
]

pub dot_segment_index-slash :
    (s : Bytes) → dot_segment_index (b'/' ∷ s) ≡ dot_index_from 0 false (b'/' ∷ s)
unfolding dot_segment_index dot_index_from
dot_segment_index-slash s = rw (dot_segment_index, dot_index_from, slash-two_dots s) refl

dot_segment_index-join :
    (s : Bytes) → dot_segment_index (b'/' ∷ s) ≡ dot_index_from 0 false (join (split_slash s))
dot_segment_index-join s = rw (join-split_slash s) (dot_segment_index-slash s)

-- The loop, begun at the index.
loop-from :
    (path front : Bytes) (i : ℕ) (stack segs : List Bytes)
    → path ≡ front ++ join segs
    → render stack ≡ front
    → i ≡ length front
    → All IsSegment stack
    → All IsSegment segs
    → collapse_loop (suc (length path)) path (drop i path) [] i ≡ answer (resolve stack segs)
loop-from path front i stack segs p q l k h =
    let d : drop (length front) path ≡ join segs =
      ap (drop (length front)) p ∙ drop-length_append front (join segs) in
    let t : take (length front) path ≡ front =
      ap (take (length front)) p ∙ take-length_append front (join segs) in
    let n : length path ≡ length front + length (join segs) =
      ap length p ∙ length-append front (join segs) in
    rw (l, d)
      (loop-resolve path (suc (length path)) segs h (omega (arith, n)) stack [] (length front) k
        (inl refl, t ∙ sym q, omega (arith, n)))

-- On a path that begins with a slash, CollapseDotSegments resolves the segments: it returns them,
-- each behind a slash, or ok=false where a ".." has no segment to take away. The loop ends.
pub collapse_dot_segments-resolve :
    (s : Bytes) → collapse_dot_segments (b'/' ∷ s) ≡ answer (resolve [] (split_slash s))
unfolding collapse_dot_segments
collapse_dot_segments-resolve s =
    let path : Bytes = b'/' ∷ s in
    let segs = split_slash s in
    let h = split_slash-IsSegment s in
    let j = join-split_slash s in
    elim (Option-cases (dot_index_from 0 false (join segs))) [
      | inl e ↦
          let (stack, p, q) = index-none 0 [] segs h e in
          rw (collapse_dot_segments, dot_segment_index-join s, e, p) (ap collapsed (sym j ∙ sym q))
      | inr (i, e) ↦
          let (front, stack, segs', p, q, l, k, h', r) = index-some 0 i [] segs h tt e in
          rw (collapse_dot_segments, dot_segment_index-join s, e, r)
            (loop-from path front i stack segs' (sym j ∙ p) q (omega (arith, l)) k h')
    ]
