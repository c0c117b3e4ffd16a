-- ===== src/UrlPath/Dots/Round.antt =====
-- One round of the loop of CollapseDotSegments, on a path cut into segments.
use fox.Prelude.{
  ℕ, ◌≡◌, refl, true, false, none, some, List, [], ◌∷◌, ◌++◌, ◌==◌, if◌then◌else◌, arith, drop,
  Bytes, is_empty,
}
use fox.UrlPath.{written}
use fox.UrlPath.Dots.{
  at_end, one_dot, two_dots, put_slash, move_segment, last_slash, with_rest, collapse_round,
}
use fox.UrlPath.Dots.Resolve.{join, is_dot, is_dots, IsSegment}

pub at_end-join : (segs : List Bytes) → at_end (join segs) ≡ true
at_end-join [] = refl
at_end-join (seg ∷ segs) = refl

-- What stands behind a slash is seen from the segment.
module _ (rest : Bytes) (end : at_end rest ≡ true) where
  pub one_dot-seg : (seg : Bytes) → IsSegment seg → one_dot (seg ++ rest) ≡ is_dot seg
  one_dot-seg [] h = not_dot rest end
    where
      not_dot : (r : Bytes) → at_end r ≡ true → one_dot r ≡ false
      not_dot [] h = refl
      not_dot (x ∷ r) h = ground (arith, h)
  one_dot-seg (x ∷ []) h = rw end ground arith
  one_dot-seg (x ∷ y ∷ seg) h = ground (arith, h)

  pub two_dots-seg : (seg : Bytes) → IsSegment seg → two_dots (seg ++ rest) ≡ is_dots seg
  two_dots-seg [] h = not_dots rest end
    where
      not_dots : (r : Bytes) → at_end r ≡ true → two_dots r ≡ false
      not_dots [] h = refl
      not_dots (x ∷ []) h = refl
      not_dots (x ∷ y ∷ r) h = ground (arith, h)
  two_dots-seg (x ∷ []) h = not_dots rest end
    where
      not_dots : (r : Bytes) → at_end r ≡ true → two_dots (x ∷ r) ≡ false
      not_dots [] h = refl
      not_dots (y ∷ r) h = ground (arith, h)
  two_dots-seg (x ∷ y ∷ []) h = rw end ground arith
  two_dots-seg (x ∷ y ∷ z ∷ seg) h = ground (arith, h)

drop-is_dot : (seg rest : Bytes) → is_dot seg ≡ true → drop 1 (seg ++ rest) ≡ rest
drop-is_dot [] rest h = ground (arith, h)
drop-is_dot (x ∷ []) rest h = refl
drop-is_dot (x ∷ y ∷ seg) rest h = ground (arith, h)

drop-is_dots : (seg rest : Bytes) → is_dots seg ≡ true → drop 2 (seg ++ rest) ≡ rest
drop-is_dots [] rest h = ground (arith, h)
drop-is_dots (x ∷ []) rest h = ground (arith, h)
drop-is_dots (x ∷ y ∷ []) rest h = refl
drop-is_dots (x ∷ y ∷ z ∷ seg) rest h = ground (arith, h)

pub slash-two_dots : (s : Bytes) → two_dots (b'/' ∷ s) ≡ false
slash-two_dots [] = refl
slash-two_dots (x ∷ s) = refl

module _ (path seg buf : Bytes) (segs : List Bytes) (w : ℕ) (h : IsSegment seg) where
  pub round-dot :
      is_dot seg ≡ true
      → collapse_round path b'/' (seg ++ join segs) buf w
        ≡ some (with_rest (join segs) (put_slash path (is_empty (join segs)) buf w))
  unfolding collapse_round
  round-dot e =
      rw
        (
          slash-two_dots (seg ++ join segs),
          one_dot-seg (join segs) (at_end-join segs) seg h,
          e,
          drop-is_dot seg (join segs) e,
        )
        refl

  pub round-dots :
      is_dot seg ≡ false
      → is_dots seg ≡ true
      → collapse_round path b'/' (seg ++ join segs) buf w ≡ (
          if w == 0
          then none
          else some (
              with_rest
                (join segs)
                (put_slash path (is_empty (join segs)) buf (last_slash (written path buf w)))))
  unfolding collapse_round
  round-dots e f =
      rw
        (
          slash-two_dots (seg ++ join segs),
          one_dot-seg (join segs) (at_end-join segs) seg h,
          e,
          two_dots-seg (join segs) (at_end-join segs) seg h,
          f,
          drop-is_dots seg (join segs) f,
        )
        refl

  pub round-move :
      is_dot seg ≡ false
      → is_dots seg ≡ false
      → collapse_round path b'/' (seg ++ join segs) buf w
        ≡ some (
            move_segment path
              (seg ++ join segs)
              (put_slash path true buf w).0
              (put_slash path true buf w).1)
  unfolding collapse_round
  round-move e f =
      rw
        (
          slash-two_dots (seg ++ join segs),
          one_dot-seg (join segs) (at_end-join segs) seg h,
          e,
          two_dots-seg (join segs) (at_end-join segs) seg h,
          f,
        )
        refl
