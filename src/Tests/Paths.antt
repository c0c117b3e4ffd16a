-- ===== src/Tests/Paths.antt =====
-- Concrete paths: dot segments, the routing path and its normalisation, and parameters.
use fox.Prelude.{List, ◌≡◌, ◌<◌, ◌⊎◌, refl, true, some, [], ◌∷◌, codes, arith, length, All, false}
use fox.Parser.{normalize_path, redirect_path}
use fox.StringsUtil.Escape.{unescape, is_canonical}
use fox.UrlPath.Dots.{collapsed, collapse_dot_segments}
use fox.UrlPath.Dots.Resolve.{resolve, split_slash}
use fox.UrlPath.Dots.Loop.{answer}
use fox.UrlPath.Dots.Index.{collapse_dot_segments-resolve}
use fox.UrlPath.Dots.Clean.{IsClean, collapse_dot_segments-IsClean}
use fox.Params.{Param, get, has}
use fox.Params.First.{Lacks, FirstIs, get-has-first}
use fox.Routing.{Modes, redirect_routing_path, routing_path, hex_escape_non_ascii, escaped_length}
use fox.Routing.Redirect.{Agrees, redirect_routing_path-Agrees}
use fox.Routing.Request.{MayStay, routing_path-canonical}
use fox.Routing.Location.{hex_escape_each, hex_escape_non_ascii-each}

abbrev redirecting : Modes
redirecting = record { merge_slash = redirect_path; collapse_dots = normalize_path }

collapse_dot_segments-resolve_example :
    collapse_dot_segments (codes "/a/./b//../c/..")
    ≡ answer (resolve [] (split_slash (codes "a/./b//../c/..")))
collapse_dot_segments-resolve_example = collapse_dot_segments-resolve (codes "a/./b//../c/..")

one_level : collapse_dot_segments (codes "/a/../b") ≡ collapsed (codes "/b")
unfolding collapse_dot_segments
one_level = refl

collapse_dot_segments-IsClean_example : IsClean (codes "/a/../b") (codes "/b")
collapse_dot_segments-IsClean_example =
    collapse_dot_segments-IsClean (codes "a/../b") (codes "/b") one_level

redirect_routing_path-Agrees_example :
    Agrees redirecting (codes "/a//b/../c") (redirect_routing_path redirecting (codes "/a//b/../c"))
redirect_routing_path-Agrees_example = redirect_routing_path-Agrees redirecting (codes "a//b/../c")

routing_path-canonical_example :
    (unescape (routing_path (codes "/%7e") (codes "/~")).0 ≡ some (codes "/~"))
    × (is_canonical (routing_path (codes "/%7e") (codes "/~")).0 ≡ true)
    × (((routing_path (codes "/%7e") (codes "/~")).1 ≡ true) ⊎ MayStay (codes "/%7e") (codes "/~"))
routing_path-canonical_example =
    routing_path-canonical (codes "/%7e") (codes "/~")
      (omega arith, (omega arith, (omega arith, (omega arith, tt))))
      (omega arith, (omega arith, tt))

hex_escape_non_ascii-each_example :
    (hex_escape_non_ascii (b'a' ∷ 195 ∷ 169 ∷ []) ≡ hex_escape_each (b'a' ∷ 195 ∷ 169 ∷ []))
    × (length (hex_escape_non_ascii (b'a' ∷ 195 ∷ 169 ∷ []))
        ≡ escaped_length (b'a' ∷ 195 ∷ 169 ∷ []))
    × All (λ c. c < 128) (hex_escape_non_ascii (b'a' ∷ 195 ∷ 169 ∷ []))
hex_escape_non_ascii-each_example =
    hex_escape_non_ascii-each (b'a' ∷ 195 ∷ 169 ∷ [])
      (omega arith, (omega arith, (omega arith, tt)))

abbrev captured : List Param
captured =
    (record { key = codes "id"; value = codes "7" })
    ∷ (record { key = codes "name"; value = codes "x" })
    ∷ []

get-has-first_example :
    ((has captured (codes "name") ≡ false)
      × (get captured (codes "name") ≡ [])
      × Lacks (codes "name") captured)
    ⊎ ((has captured (codes "name") ≡ true)
        × FirstIs (codes "name") captured (get captured (codes "name")))
get-has-first_example = get-has-first captured (codes "name")
