-- ===== src/Tests.antt =====
-- Concrete inputs: at each, a theorem of the library applies.
mod Parsers
mod Paths
mod Addresses
mod Lookups
use mathlib.Core.Path.{◌≡◌, refl}
use mathlib.Core.List.{Mem, Perm}
use fox.Prelude.{
  inl, ℕ, ◌+◌, ◌*◌, ◌≢◌, ◌↔◌, ◌⊎◌, true, false, ◌&&◌, ◌==◌, if◌then◌else◌, none, some, List, [],
  ◌∷◌, ◌++◌, All, Bytes, codes, arith, ==_iff, length, compare_bytes,
}
use fox.Slices.{Comparable, equal_unsorted, overlap}
use fox.Slices.Equal.{equal_unsorted-iff_perm}
use fox.Slices.Overlap.{Common, bytes_ordered, overlap_iff}
use fox.Route.{exact_slash, Route, matchers_within}
use fox.Route.Matchers.{matchers_within_iff}
use fox.Node.{Head, Node, node, nil, cons, routes, statics, wildcards, label_index}
use fox.Node.Order.{before, add_route, replace_route, del_route}
use fox.Node.Order.Ranked.{MayPrecede, Ranked, add_route-Ranked}
use fox.Node.Order.Replaced.{replace_route-Ranked}
use fox.Node.Search.{lower, label_index-lower}
use fox.Node.Content.{syms}
use fox.Tree.{mode_insert, ok, static_node}
use fox.Tree.Names.{insert_name}
use fox.Tree.Names.Insert.{Inserted, insert_name-Inserted}
use fox.Tree.Insert.{is_conflict, shadows, all_routes, insert_named, attach}
use fox.Tree.Insert.Clashes.{NoneIs, Clash, Shadow, parent_routes}
use fox.Tree.Insert.Conflicts.{IsFree, Named, attach-ok_iff}
use fox.Tree.Walk.{static_token}
use fox.Tree.Walk.Stuck.{is_stuck}
use fox.Tree.Txn.{insert, delete, Txn}
use fox.Tree.Ends.{insert-free}
use fox.UrlPath.{merge_slashes}
use fox.UrlPath.{escape_leading_slashes}
use fox.UrlPath.Redirect.{names_host, escape_leading_slashes_lem}
use fox.Route.{has_duplicate_matcher}
use fox.Route.Duplicates.{AreDistinct, has_duplicate_matcher-AreDistinct}
use fox.Netutil.{split_host_port, strip_host_port, trim_dot}
use fox.Netutil.Parts.{split_host_port-bracketed, strip_host_port-plain}
use fox.UrlPath.Merge.{AreSingle, squeeze, segments, merge_slashes-squeeze, merge_slashes-clean}
use fox.StringsUtil.{
  required, path_no_escape, is_unreserved, clean_prefix, escape_into, escape_path,
  normalize_raw_path,
}
use fox.StringsUtil.Escape.{unescape, is_canonical, escape_path-canonical, length-escape_into}
use fox.StringsUtil.Normalize.{normal_form, has_routable_bytes}
use fox.StringsUtil.Normalize.Answer.{decodes_to, normalize_raw_path-answer}
use fox.Recorder.{Writer, returned, reset}
use fox.StringsUtil.Normalize.Canonical.{normalize_raw_path-canonical}
use fox.Recorder.Watched.{watched, Call, call_header, call_write, call_hijack, run}
use fox.Recorder.Truth.{IsTruthful, reset-IsTruthful}

abbrev numbers : Comparable ℕ
numbers = record { equal = λ a b. a == b; equal_iff = ==_iff }

abbrev route_with : Bytes → List Bytes → List ℕ → ℕ → Route ℕ
route_with name methods matchers priority = record {
  handler = 1;
  name = name;
  methods = methods;
  params = [];
  matchers = matchers;
  method_fast = [];
  pattern = record {
    str = codes "/foo";
    tokens = static_token (codes "/foo") false ∷ [];
    optional_catch_all = false;
    catch_all = false;
    end_host = 0;
    host_params = 0;
  };
  priority = priority;
  handle_slash = exact_slash;
  nested = false;
}

abbrev get_user : Route ℕ
get_user = route_with (codes "user") (codes "GET" ∷ []) (1 ∷ 2 ∷ []) 5

abbrev post_users : Route ℕ
post_users = route_with (codes "users") (codes "POST" ∷ []) (2 ∷ 1 ∷ []) 7

abbrev any_user : Route ℕ
any_user = route_with [] [] [] 0

abbrev empty_head : Head
empty_head = record { label = 0; key = []; regexp = none; host = false; nested = false }

abbrev empty_tree : Node ℕ
empty_tree = node empty_head [] nil nil nil

-- The tree of names with the name "user".
abbrev one_name : Node ℕ
one_name = node empty_head [] (cons (static_node (codes "user") false (get_user ∷ [])) nil) nil nil

-- A tree of routes with the path "/foo".
abbrev one_path : Node ℕ
one_path = node empty_head [] (cons (static_node (codes "/foo") false (get_user ∷ [])) nil) nil nil

abbrev leaf : Node ℕ
leaf = static_node (codes "/foo") false (get_user ∷ any_user ∷ [])

insert_name-Inserted_example :
    Inserted one_name
      (syms (codes "users"))
      post_users
      mode_insert
      (insert_name one_name post_users mode_insert)
insert_name-Inserted_example =
    insert_name-Inserted one_name post_users mode_insert
      ((tt, tt), (refl, (tt, tt, tt, tt), tt), tt, tt)

attach-ok_iff_example :
    ((x : Node ℕ × Node ℕ) × (attach numbers.equal none leaf empty_tree post_users ≡ ok x)
      × (x.0 ≡ add_route leaf post_users)
      × Named empty_tree post_users x.1)
    ↔ (NoneIs (Clash post_users) (routes leaf)
        × NoneIs (λ r. Shadow r post_users) (parent_routes none post_users)
        × NoneIs
            (λ r. (r.pattern.optional_catch_all ≡ true) × Shadow post_users r)
            (all_routes (wildcards leaf))
        × IsFree empty_tree post_users.name)
attach-ok_iff_example =
    attach-ok_iff numbers none leaf empty_tree post_users (tt, tt, tt, tt) (tt, tt)
      ((tt, tt), (tt, tt)) tt tt

-- A writer that takes all it is given, and can be hijacked.
abbrev sink : Writer ℕ ℕ
sink = record {
  write_header = λ w code. (w, returned tt);
  write = λ w b. (w + length b, returned (length b, none));
  write_string = λ w b. (w + length b, returned (length b, none));
  chain = λ w. [];
  flush_error = λ w. (w, returned none);
  flush = λ w. (w, returned tt);
  hijack = λ w. (w, returned none);
}

abbrev calls : List Call
calls =
    call_header 103
    ∷ call_header 404
    ∷ call_header 200
    ∷ call_write (codes "gone")
    ∷ call_hijack
    ∷ []

reset-IsTruthful_example :
    IsTruthful (run (watched sink) (reset (record { inner = 0; finals = []; sent = 0 })) calls)
reset-IsTruthful_example = reset-IsTruthful sink 0 calls

normalize_raw_path-answer_example : normalize_raw_path (codes "/%7ea%2f b") (codes "/~a/ b") ≡ (
    if decodes_to (codes "/%7ea%2f b") (codes "/~a/ b")
    then (normal_form (codes "/%7ea%2f b"), has_routable_bytes (codes "/%7ea%2f b"))
    else ([], false))
normalize_raw_path-answer_example = normalize_raw_path-answer (codes "/%7ea%2f b") (codes "/~a/ b")

normalize_raw_path-canonical_example :
    (unescape (normalize_raw_path (codes "/%7e%2f") (codes "/~/")).0 ≡ some (codes "/~/"))
    × (is_canonical (normalize_raw_path (codes "/%7e%2f") (codes "/~/")).0 ≡ true)
unfolding unescape
normalize_raw_path-canonical_example =
    normalize_raw_path-canonical (codes "/%7e%2f") (codes "/~/")
      (
        omega arith,
        (
          omega arith,
          (omega arith, (omega arith, (omega arith, (omega arith, (omega arith, tt))))),
        ),
      )
      refl

escape_path-canonical_example :
    (unescape (escape_path (codes "/a b")) ≡ some (codes "/a b"))
    × (is_canonical (escape_path (codes "/a b")) ≡ true)
escape_path-canonical_example =
    escape_path-canonical (codes "/a b")
      (omega arith, (omega arith, (omega arith, (omega arith, tt))))

blank_escaped : clean_prefix (codes "/a b") ≢ length (codes "/a b")
unfolding clean_prefix path_no_escape is_unreserved
blank_escaped = omega arith

length-escape_into_example :
    length (escape_into (codes "/a b") (clean_prefix (codes "/a b")))
    ≡ required (codes "/a b") (clean_prefix (codes "/a b"))
length-escape_into_example = length-escape_into (codes "/a b") blank_escaped

merge_slashes-squeeze_example : merge_slashes (codes "/a//b/") ≡ squeeze (codes "/a//b/")
merge_slashes-squeeze_example = merge_slashes-squeeze (codes "/a//b/")

merge_slashes-clean_example :
    AreSingle (merge_slashes (codes "//a///b"))
    × (segments (merge_slashes (codes "//a///b")) ≡ segments (codes "//a///b"))
    × (AreSingle (codes "//a///b") ↔ (merge_slashes (codes "//a///b") ≡ codes "//a///b"))
merge_slashes-clean_example = merge_slashes-clean (codes "//a///b")

add_route-Ranked_example :
    (pre post : List (Route ℕ)) × (routes leaf ≡ pre ++ post)
    × (routes (add_route leaf post_users) ≡ pre ++ post_users ∷ post)
    × All (λ s. MayPrecede s post_users) pre
    × All (λ s. ¬ MayPrecede s post_users) post
    × Ranked (routes (add_route leaf post_users))
add_route-Ranked_example = add_route-Ranked leaf post_users ((inl (omega arith), tt), (tt, tt))

replace_route-Ranked_example :
    (rest : List (Route ℕ)) × Perm (routes leaf) (get_user ∷ rest)
    × Perm (routes (replace_route leaf 0 post_users)) (post_users ∷ rest)
    × Ranked (routes (replace_route leaf 0 post_users))
replace_route-Ranked_example =
    replace_route-Ranked leaf 0 get_user post_users refl refl refl
      ((inl (omega arith), tt), (tt, tt))

equal_unsorted-iff_perm_example :
    (equal_unsorted numbers.equal (1 ∷ 2 ∷ 1 ∷ []) (2 ∷ 1 ∷ 1 ∷ []) ≡ true)
    ↔ Perm {A = ℕ} (1 ∷ 2 ∷ 1 ∷ []) (2 ∷ 1 ∷ 1 ∷ [])
equal_unsorted-iff_perm_example = equal_unsorted-iff_perm numbers (1 ∷ 2 ∷ 1 ∷ []) (2 ∷ 1 ∷ 1 ∷ [])

abbrev some_methods : List Bytes
some_methods = codes "GET" ∷ codes "POST" ∷ []

overlap_iff_example : (overlap bytes_ordered.cmp some_methods (codes "POST" ∷ []) ≡ true) ↔ (
    (some_methods ≡ []) × (codes "POST" ∷ [] ≡ [])
    ⊎ Common bytes_ordered some_methods (codes "POST" ∷ []))
unfolding compare_bytes
overlap_iff_example =
    overlap_iff bytes_ordered some_methods (codes "POST" ∷ []) ((λ h. cc h, tt), (tt, tt)) (tt, tt)

matchers_within_iff_example :
    (matchers_within numbers.equal get_user (2 ∷ 3 ∷ 1 ∷ []) ≡ true)
    ↔ All (λ a. Mem a (2 ∷ 3 ∷ 1 ∷ [])) get_user.matchers
matchers_within_iff_example = matchers_within_iff numbers get_user (2 ∷ 3 ∷ 1 ∷ [])

label_index-lower_example : label_index (statics one_path) b'/' ≡ lower (statics one_path) b'/'
label_index-lower_example = label_index-lower (statics one_path) b'/' (tt, tt)

abbrev one_route : Txn ℕ
one_route = record {
  patterns = one_path;
  names = one_name;
  methods = [];
  size = 1;
  max_params = 0;
  max_depth = 0;
}

insert-free_example :
    (is_stuck (insert numbers.equal one_route post_users mode_insert) ≡ false)
    × (is_stuck (delete numbers.equal one_route post_users) ≡ false)
insert-free_example =
    insert-free numbers.equal one_route post_users mode_insert
      ((tt, tt), (refl, (tt, tt, tt, tt), tt), tt, tt)
      ((tt, tt), (refl, (tt, tt, tt, tt), tt), tt, tt)

escape_leading_slashes_lem_example :
    (names_host (escape_leading_slashes (codes "/\\evil.com/")) ≡ false)
    × (unescape (escape_leading_slashes (codes "/\\evil.com/")) ≡ unescape (codes "/\\evil.com/"))
escape_leading_slashes_lem_example = escape_leading_slashes_lem (codes "/\\evil.com/") (omega arith)

has_duplicate_matcher-AreDistinct_example :
    (has_duplicate_matcher numbers.equal (1 ∷ 2 ∷ 1 ∷ []) ≡ false)
    ↔ AreDistinct {M = ℕ} (1 ∷ 2 ∷ 1 ∷ [])
has_duplicate_matcher-AreDistinct_example =
    has_duplicate_matcher-AreDistinct numbers (1 ∷ 2 ∷ 1 ∷ [])

split_host_port-bracketed_example :
    split_host_port (codes "[::1]:80") ≡ some (codes "::1", codes "80")
split_host_port-bracketed_example =
    split_host_port-bracketed (codes "::1") (codes "80") (refl, (refl, (refl, tt)))
      (refl, (refl, (refl, tt))) ((refl, (refl, tt)), (refl, (refl, tt)), (refl, (refl, tt)))

strip_host_port-plain_example :
    (strip_host_port (codes "a.b.:80") ≡ trim_dot (codes "a.b."))
    × (strip_host_port (codes "a.b.") ≡ trim_dot (codes "a.b."))
strip_host_port-plain_example =
    strip_host_port-plain (codes "a.b.") (codes "80")
      (
        (refl, (refl, (refl, (refl, tt)))),
        (refl, (refl, (refl, (refl, tt)))),
        (refl, (refl, (refl, (refl, tt)))),
      )
      ((refl, (refl, tt)), (refl, (refl, tt)), (refl, (refl, tt)))
