-- ===== src/UrlPath/Dots/Loop.antt =====
-- CollapseDotSegments, on a path that begins with a slash, against the resolution of its segments.
use fox.Prelude.{
  ℕ, zero, suc, ◌+◌, ◌<◌, ◌≡◌, refl, ap, ◌∙◌, true, false, Option, none, some, List, [], ◌∷◌, ◌++◌,
  ◌==◌, arith, length, Bytes, is_empty, All, inl, inr, Bool-cases, length-append, append_assoc,
}
use fox.UrlPath.{written}
use fox.UrlPath.Dots.{Collapsed, collapsed, above_root, put_slash, collapse_round, collapse_loop}
use fox.UrlPath.Dots.Resolve.{join, render, resolve, close, is_dot, is_dots, IsSegment}
use fox.UrlPath.Dots.Round.{at_end-join, round-dot, round-dots, round-move}
use fox.UrlPath.Dots.Output.{Wrote, length-Wrote, Wrote-byte, move-Wrote, pop-Wrote}

abbrev pub answer : Option (List Bytes) → Collapsed
answer none = above_root
answer (some stack) = collapsed (render stack)

module _ (path : Bytes) where
  -- The next round, once the output of this one is known.
  step :
      (f c : ℕ) (s buf rest buf' : Bytes) (w w' : ℕ)
      → collapse_round path c s buf w ≡ some (rest, buf', w')
      → collapse_loop (suc f) path (c ∷ s) buf w ≡ collapse_loop f path rest buf' w'
  unfolding collapse_loop
  step f c s buf rest buf' w w' e = rw (collapse_loop, e) refl

  stop :
      (f c : ℕ) (s buf : Bytes) (w : ℕ)
      → collapse_round path c s buf w ≡ none
      → collapse_loop (suc f) path (c ∷ s) buf w ≡ above_root
  unfolding collapse_loop
  stop f c s buf w e = rw (collapse_loop, e) refl

  ended :
      (f : ℕ) (buf : Bytes) (w : ℕ)
      → collapse_loop (suc f) path [] buf w ≡ collapsed (written path buf w)
  ended f buf w = unfold collapse_loop in refl

  -- What is claimed of the rounds behind `segs`.
  abbrev Resolves : ℕ → List Bytes → Type 0
  Resolves f segs =
      (stack : List Bytes) (buf : Bytes) (w : ℕ)
      → All IsSegment stack
      → Wrote path buf w (render stack) (length (join segs))
      → collapse_loop f path (join segs) buf w ≡ answer (resolve stack segs)

  -- Behind a dot segment.
  close-resolve :
      (f : ℕ) (segs stack : List Bytes) (buf : Bytes) (w : ℕ)
      → Resolves f segs
      → All IsSegment stack
      → Wrote path buf w (render stack) (suc (length (join segs)))
      → collapse_loop f path
          (join segs)
          (put_slash path (is_empty (join segs)) buf w).0
          (put_slash path (is_empty (join segs)) buf w).1
        ≡ answer (resolve (close stack segs) segs)
  unfolding put_slash
  close-resolve f [] stack buf w ih k o =
      ih ([] ∷ stack) _ _ (tt, k) (Wrote-byte path buf w b'/' (render stack) 0 o)
  close-resolve f (seg ∷ segs) stack buf w ih k (fits, e, l) =
      ih stack buf w k (fits, e, omega (arith, l))

  dots-resolve :
      (f : ℕ) (seg : Bytes) (segs stack : List Bytes) (buf : Bytes) (w : ℕ)
      → IsSegment seg
      → Resolves f segs
      → All IsSegment stack
      → Wrote path buf w (render stack) (suc (length seg + length (join segs)))
      → is_dot seg ≡ false
      → is_dots seg ≡ true
      → collapse_loop (suc f) path (join (seg ∷ segs)) buf w ≡ answer (resolve stack (seg ∷ segs))
  unfolding resolve
  dots-resolve f seg segs [] buf w h ih k o e d =
      let z : w ≡ 0 = length-Wrote path buf w [] _ o in
      rw (resolve, e, d) (stop f b'/' _ buf w (round-dots path seg buf segs w h e d ∙ rw z refl))
  dots-resolve f seg segs (top ∷ below) buf w h ih (kt, k) o e d =
      let z : (w == 0) ≡ false =
        ground (arith, length-Wrote path buf w _ _ o, length-append (render below) (b'/' ∷ top)) in
      let o' = pop-Wrote path buf w (render below) top _ kt o in
      rw (resolve, e, d)
        (step f b'/' _ buf _ _ w _ (round-dots path seg buf segs w h e d ∙ rw z refl)
          ∙ close-resolve f segs below buf _ ih k (o'.0, o'.1, omega (arith, o'.2)))

  pub loop-resolve :
      (f : ℕ) (segs : List Bytes) → All IsSegment segs → length (join segs) < f → Resolves f segs
  unfolding resolve
  loop-resolve zero segs h l stack buf w k o = ground (arith, l)
  loop-resolve (suc f) [] h l stack buf w k (fits, e, o) = ended f buf w ∙ ap collapsed e
  loop-resolve (suc f) (seg ∷ segs) (h, hs) l stack buf w k (fits, r, o) =
      let n = length-append seg (join segs) in
      let ih : Resolves f segs = loop-resolve f segs hs (omega (arith, l, n)) in
      elim (Bool-cases (is_dot seg)) [
        | inl e ↦
            rw (resolve, e)
              (step f b'/' _ buf _ _ w _ (round-dot path seg buf segs w h e)
                ∙ close-resolve f segs stack buf w ih k (fits, r, omega (arith, o, n)))
        | inr e ↦ elim (Bool-cases (is_dots seg)) [
          | inl d ↦ dots-resolve f seg segs stack buf w h ih k (fits, r, omega (arith, o, n)) e d
          | inr d ↦
              let (buf', w', q, g) =
                move-Wrote path seg (join segs) (put_slash path true buf w).0
                  (put_slash path true buf w).1 (render stack ++ b'/' ∷ []) (length (join segs)) h
                  (at_end-join segs)
                  (unfold put_slash in
                    Wrote-byte path buf w b'/' (render stack) _ (fits, r, omega (arith, o, n))) in
              rw (resolve, e, d)
                (step f b'/' _ buf _ _ w _ (round-move path seg buf segs w h e d ∙ ap some q)
                  ∙ ih (seg ∷ stack) buf' w' (h, k)
                      (g.0, g.1 ∙ append_assoc (render stack) (b'/' ∷ []) seg, g.2))
        ]
      ]
