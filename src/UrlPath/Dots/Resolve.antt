-- ===== src/UrlPath/Dots/Resolve.antt =====
-- The segments of a path that begins with a slash, and what RFC 3986 makes of "." and "..".
use fox.Prelude.{
  ◌≡◌, Bool, false, ◌&&◌, Option, none, some, List, [], ◌∷◌, ◌++◌, ◌==◌, if◌then◌else◌, drop, Bytes,
  is_empty, All,
}
use fox.UrlPath.Dots.{one_dot, two_dots}

-- The text between slashes.
unfoldable pub split_slash : Bytes → List Bytes
split_slash [] = [] ∷ []
split_slash (c ∷ s) =
    let rest = split_slash s in
    if c == b'/'
    then [] ∷ rest
    else elim rest [ [] ↦ (c ∷ []) ∷ [] | seg ∷ segs ↦ (c ∷ seg) ∷ segs ]

-- Segments with a slash before each; `render` has the last one first.
abbrev pub join : List Bytes → Bytes
join [] = []
join (seg ∷ segs) = b'/' ∷ (seg ++ join segs)

abbrev pub render : List Bytes → Bytes
render [] = []
render (seg ∷ stack) = render stack ++ b'/' ∷ seg

abbrev pub is_dot : Bytes → Bool
is_dot seg = one_dot seg && is_empty (drop 1 seg)

abbrev pub is_dots : Bytes → Bool
is_dots seg = two_dots seg && is_empty (drop 2 seg)

-- A segment has no slash.
abbrev pub IsSegment : Bytes → Type 0
IsSegment seg = All (λ c. (c == b'/') ≡ false) seg

-- A dot segment at the end leaves an empty segment, which is the slash at the end.
abbrev pub close : List Bytes → List Bytes → List Bytes
close stack [] = [] ∷ stack
close stack (next ∷ more) = stack

-- "." stands for nothing and ".." takes away the segment before, empty or not. There is nothing above
-- the root.
unfoldable pub resolve : List Bytes → List Bytes → Option (List Bytes)
resolve stack [] = some stack
resolve stack (seg ∷ segs) =
    let kept = resolve (close stack segs) segs in
    let moved = resolve (seg ∷ stack) segs in
    let popped : Option (List Bytes) = elim stack [
      | [] ↦ none
      | top ∷ below ↦ resolve (close below segs) segs
    ] in
    if is_dot seg then kept else if is_dots seg then popped else moved
