-- ===== src/UrlPath/Dots/Output.antt =====
-- What the steps of CollapseDotSegments do to the bytes written so far.
use fox.Prelude.{
  ℕ, zero, suc, ◌+◌, ◌≤◌, ◌≡◌, refl, sym, ap, ◌∙◌, true, [], ◌∷◌, ◌++◌, arith, length, take, Bytes,
  is_empty, inl, inr, Bool-cases, length-take, length-append, append_assoc, append-nil,
  take-length_append,
}
use fox.Netutil.Parts.{last_index_byte-last}
use fox.UrlPath.{buf_app, written}
use fox.UrlPath.Merge.{Fits, written-buf_app}
use fox.UrlPath.Dots.{at_end, move_segment, last_slash}
use fox.UrlPath.Dots.Resolve.{IsSegment}

-- `out` is written, and `n` more bytes fit.
abbrev pub Wrote : Bytes → Bytes → ℕ → Bytes → ℕ → Type 0
Wrote path buf w out n = Fits path buf × (written path buf w ≡ out) × (w + n ≤ length path)

length-written :
    (path buf : Bytes) (w : ℕ) → Fits path buf → w ≤ length path → length (written path buf w) ≡ w
length-written path buf w fits h = elim (Bool-cases (is_empty buf)) [
  | inl e ↦ rw e (omega (arith, length-take w path, h))
  | inr e ↦
      let m : length buf ≡ length path = ground (arith, fits, e) in
      rw e (omega (arith, length-take w buf, h, m))
]

pub length-Wrote :
    (path buf : Bytes) (w : ℕ) (out : Bytes) (n : ℕ) → Wrote path buf w out n → w ≡ length out
length-Wrote path buf w out n (fits, e, l) =
    sym (length-written path buf w fits (omega (arith, l))) ∙ ap length e

pub Wrote-byte :
    (path buf : Bytes) (w c : ℕ) (out : Bytes) (n : ℕ)
    → Wrote path buf w out (suc n)
    → Wrote path (buf_app buf path w c) (suc w) (out ++ c ∷ []) n
Wrote-byte path buf w c out n (fits, e, l) =
    let (v, fits') = written-buf_app path buf w c (omega (arith, l)) fits in
    (fits', v ∙ ap (λ r. r ++ c ∷ []) e, omega (arith, l))

pub move-Wrote :
    (path : Bytes) (seg rest buf : Bytes) (w : ℕ) (out : Bytes) (n : ℕ)
    → IsSegment seg
    → at_end rest ≡ true
    → Wrote path buf w out (length seg + n)
    → ((buf' : Bytes) × (w' : ℕ) × (move_segment path (seg ++ rest) buf w ≡ (rest, buf', w'))
        × Wrote path buf' w' (out ++ seg) n)
unfolding move_segment
move-Wrote path [] [] buf w out n h e (f, p, l) =
    (buf, w, refl, (f, p ∙ sym (append-nil out), omega (arith, l)))
move-Wrote path [] (x ∷ rest) buf w out n h e (f, p, l) =
    (buf, w, rw (move_segment, e) refl, (f, p ∙ sym (append-nil out), omega (arith, l)))
move-Wrote path (x ∷ seg) rest buf w out n (h, hs) e (f, p, l) =
    let (buf', w', q, (g, v, m)) =
      move-Wrote path seg rest (buf_app buf path w x) (suc w) (out ++ x ∷ []) n hs e
        (Wrote-byte path buf w x out (length seg + n) (f, p, omega (arith, l))) in
    (buf', w', rw (move_segment, h) q, (g, v ∙ append_assoc out (x ∷ []) seg, m))

take-take : (i w : ℕ) (s : Bytes) → i ≤ w → take i (take w s) ≡ take i s
take-take zero w s h = refl
take-take (suc i) zero s h = ground (arith, h)
take-take (suc i) (suc w) [] h = refl
take-take (suc i) (suc w) (x ∷ s) h = ap (λ r. x ∷ r) (take-take i w s (omega (arith, h)))

written-take :
    (path buf : Bytes) (i w : ℕ) → i ≤ w → written path buf i ≡ take i (written path buf w)
written-take path buf i w h = elim (Bool-cases (is_empty buf)) [
  | inl e ↦ rw e (sym (take-take i w path h))
  | inr e ↦ rw e (sym (take-take i w buf h))
]

last_slash-last :
    (below top : Bytes) → IsSegment top → last_slash (below ++ b'/' ∷ top) ≡ length below
unfolding last_slash
last_slash-last below top h = rw (last_slash, last_index_byte-last below top b'/' h) refl

-- The last segment is taken away.
pub pop-Wrote :
    (path buf : Bytes) (w : ℕ) (below top : Bytes) (n : ℕ)
    → IsSegment top
    → Wrote path buf w (below ++ b'/' ∷ top) n
    → Wrote path buf (last_slash (written path buf w)) below (suc n)
pop-Wrote path buf w below top n h (f, p, l) =
    let i : last_slash (written path buf w) ≡ length below =
      ap last_slash p ∙ last_slash-last below top h in
    let k : w ≡ length (below ++ b'/' ∷ top) = length-Wrote path buf w _ n (f, p, l) in
    let m = length-append below (b'/' ∷ top) in
    rw i (
      f,
      written-take path buf (length below) w (omega (arith, k, m))
          ∙ (ap (take (length below)) p ∙ take-length_append below (b'/' ∷ top)),
      omega (arith, k, m, l),
    )
