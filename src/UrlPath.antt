-- ===== src/UrlPath.antt =====
-- path.go: MergeSlashes, its lazily made buffer, fixTrailingSlash and escapeLeadingSlashes. The
-- buffer is empty, or has the length of the path; of it, the first `w` bytes are written.
pub mod Merge
pub mod Redirect
pub mod Dots
use mathlib.Core.Option
use fox.Prelude.{
  ℕ, zero, suc, ◌+◌, ◌-◌, Bool, true, false, ◌&&◌, ◌||◌, Option, none, some, List, [], ◌∷◌, ◌++◌,
  ◌==◌, if◌then◌else◌, length, get_or, take, drop, Bytes, is_empty, ltb,
}

-- b[w] = c; the callers have w < len(b).
abbrev pub set_byte : Bytes → ℕ → ℕ → Bytes
set_byte [] w c = []
set_byte (x ∷ b) zero c = c ∷ b
set_byte (x ∷ b) (suc w) c = x ∷ set_byte b w c

abbrev pub zeros : ℕ → Bytes
zeros zero = []
zeros (suc n) = 0 ∷ zeros n

unfoldable pub buf_app : Bytes → Bytes → ℕ → ℕ → Bytes
buf_app buf s w c =
    if is_empty buf
    then if get_or s w 0 == c then buf else set_byte (take w s ++ zeros (length s - w)) w c
    else set_byte buf w c

-- `string(buf[:w])`, or `path[:w]` where no buffer was made.
abbrev pub written : Bytes → Bytes → ℕ → Bytes
written s buf w = if is_empty buf then take w s else take w buf

-- The first loop of MergeSlashes: the index of the first slash before another.
unfoldable pub first_double : Bytes → Option ℕ
first_double [] = none
first_double (x ∷ []) = none
first_double (x ∷ y ∷ s) =
    if y == b'/' && x == b'/' then some 0 else Option.map suc (first_double (y ∷ s))

-- The second loop: `prev` is path[j-1] and `rest` is path[j:].
unfoldable pub merge_from : Bytes → ℕ → Bytes → Bytes → ℕ → Bytes × ℕ
unfolding buf_app
merge_from path prev [] buf w = (buf, w)
merge_from path prev (c ∷ rest) buf w = elim (c == b'/' && prev == b'/') [
  | true ↦ merge_from path c rest buf w
  | false ↦ merge_from path c rest (buf_app buf path w c) (suc w)
]

unfoldable pub merge_slashes : Bytes → Bytes
unfolding first_double merge_from
merge_slashes path = elim (first_double path) [
  | none ↦ path
  | some i ↦
      let (buf, w) = merge_from path (get_or path i 0) (drop (suc i) path) [] (suc i) in
      written path buf w
]

unfoldable pub escape_leading_slashes : Bytes → Bytes
escape_leading_slashes (a ∷ b ∷ c ∷ uri) =
    if a == b'\\' || a == b'/'
    then (if b == b'/'
        then a ∷ b'%' ∷ b'2' ∷ b'F' ∷ c ∷ uri
        else if b == b'\\'
        then a ∷ b'%' ∷ b'5' ∷ b'C' ∷ c ∷ uri
        else a ∷ b ∷ c ∷ uri)
    else a ∷ b ∷ c ∷ uri
escape_leading_slashes uri = uri

unfoldable pub fix_trailing_slash : Bytes → Bytes
fix_trailing_slash path =
    if ltb 1 (length path) && get_or path (length path - 1) 0 == b'/'
    then take (length path - 1) path
    else path ++ b'/' ∷ []
