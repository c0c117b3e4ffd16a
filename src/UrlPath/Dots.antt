-- ===== src/UrlPath/Dots.antt =====
-- path.go: dotSegmentIndex, hasDotSegment and CollapseDotSegments, whose output goes through the
-- lazy buffer of bufApp. One unit of fuel is one round of the loop.
pub mod Resolve
pub mod Round
pub mod Output
pub mod Loop
pub mod Index
pub mod Clean
use mathlib.Core.Option
use fox.Prelude.{
  ℕ, zero, suc, ◌+◌, ◌-◌, Bool, true, false, ◌&&◌, ◌||◌, Option, none, some, List, [], ◌∷◌, ◌++◌,
  ◌==◌, if◌then◌else◌, length, take, drop, Bytes, is_empty,
}
use fox.Netutil.{last_index_byte, is_found}
use fox.UrlPath.{buf_app, written}

-- The end of the path, or a slash.
abbrev pub at_end : Bytes → Bool
at_end [] = true
at_end (x ∷ s) = x == b'/'

-- The segment "." or ".." stands here.
abbrev pub one_dot : Bytes → Bool
one_dot [] = false
one_dot (x ∷ s) = x == b'.' && at_end s

abbrev pub two_dots : Bytes → Bool
two_dots [] = false
two_dots (x ∷ []) = false
two_dots (x ∷ y ∷ s) = x == b'.' && y == b'.' && at_end s

-- `begins` says that a segment begins at `i`; the bytes that are no dot are passed over.
unfoldable pub dot_index_from : ℕ → Bool → Bytes → Option ℕ
dot_index_from i begins [] = none
dot_index_from i begins (c ∷ s) = elim (begins && (one_dot (c ∷ s) || two_dots (c ∷ s))) [
  | true ↦ some (i - 1)
  | false ↦ dot_index_from (suc i) (c == b'/') s
]

unfoldable pub dot_segment_index : Bytes → Option ℕ
unfolding dot_index_from
dot_segment_index path = dot_index_from 0 true path

unfoldable pub has_dot_segment : Bytes → Bool
unfolding dot_segment_index
has_dot_segment path = is_found (dot_segment_index path)

-- What CollapseDotSegments returns: a path, or ok=false.
pub data Collapsed : Type 0 where
  collapsed : Bytes → Collapsed
  above_root : Collapsed
  no_fuel : Collapsed

-- A slash is written if `b`.
unfoldable pub put_slash : Bytes → Bool → Bytes → ℕ → Bytes × ℕ
unfolding buf_app
put_slash path b buf w = if b then (buf_app buf path w b'/', suc w) else (buf, w)

-- The inner loop: what is left of the path, and the output.
unfoldable pub move_segment : Bytes → Bytes → Bytes → ℕ → Bytes × Bytes × ℕ
unfolding buf_app
move_segment path [] buf w = ([], buf, w)
move_segment path (x ∷ t) buf w = elim (x == b'/') [
  | true ↦ (x ∷ t, buf, w)
  | false ↦ move_segment path t (buf_app buf path w x) (suc w)
]

-- The beginning of the last segment of the output.
unfoldable pub last_slash : Bytes → ℕ
unfolding last_index_byte
last_slash out = elim (last_index_byte out b'/') [ none ↦ 0 | some i ↦ i ]

abbrev pub with_rest : Bytes → Bytes × ℕ → Bytes × Bytes × ℕ
with_rest rest (buf, w) = (rest, buf, w)

-- One round, on a path that goes on with `c` and `s`; none above the root. Behind a dot that ends
-- the path there is nothing to drop.
unfoldable pub collapse_round : Bytes → ℕ → Bytes → Bytes → ℕ → Option (Bytes × Bytes × ℕ)
unfolding put_slash move_segment last_slash
collapse_round path c s buf w =
    if one_dot (c ∷ s)
    then some (drop 1 s, buf, w)
    else if two_dots (c ∷ s)
    then none
    else if c == b'/' && one_dot s
    then some (with_rest (drop 1 s) (put_slash path (is_empty (drop 1 s)) buf w))
    else if c == b'/' && two_dots s
    then (if w == 0
        then none
        else some (
            with_rest (drop 2 s)
              (put_slash path (is_empty (drop 2 s)) buf (last_slash (written path buf w)))))
    else (let (buf', w') = put_slash path (c == b'/') buf w in
        some (move_segment path (if c == b'/' then s else c ∷ s) buf' w'))

unfoldable pub collapse_loop : ℕ → Bytes → Bytes → Bytes → ℕ → Collapsed
unfolding collapse_round
collapse_loop zero path rest buf w = no_fuel
collapse_loop (suc f) path [] buf w = collapsed (written path buf w)
collapse_loop (suc f) path (c ∷ s) buf w = elim (collapse_round path c s buf w) [
  | none ↦ above_root
  | some (rest, buf', w') ↦ collapse_loop f path rest buf' w'
]

unfoldable pub collapse_dot_segments : Bytes → Collapsed
unfolding dot_segment_index collapse_loop
collapse_dot_segments path = elim (dot_segment_index path) [
  | none ↦ collapsed path
  | some i ↦ collapse_loop (suc (length path)) path (drop i path) [] i
]
