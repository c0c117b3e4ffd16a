-- ===== src/Lookup.antt =====
-- lookupstate.go: what a lookup remembers about the nodes and routes that it has tried. `E` is the
-- type regprog.Ends of the listings of a regular expression. The field `steps`, which only tests
-- read, and the buffers that an entry of `regexps` keeps between lookups stand for nothing here.
pub mod Accept
pub mod State
pub mod Step
pub mod Wildcards
pub mod Path
pub mod Trail
pub mod Texts
pub mod Goes
pub mod Ends
pub mod Finds
use fox.Prelude.{
  ℕ, suc, ◌+◌, Bool, true, false, ◌&&◌, ◌||◌, not, Option, none, some, List, [], ◌∷◌, ◌++◌,
  if◌then◌else◌, leb, min, max, Bytes,
}
use fox.Route.{Route}
use fox.Node.{Node, head}

-- regexp.MatchString on the text of an expression, and of internal/regprog the test Consumes and
-- the methods of Ends. Nodes and routes are compared as pointers; as values they differ when their
-- pointers do, since no two routes of a tree are the same and each node has a route below it.
pub record Library (M E : Type 0) : Type 0 where
  pub match_string : Bytes → Bytes → Bool
  pub consumes : Bytes → ℕ → Bool
  pub new_ends : E
  pub start : E → Bytes → Bytes → ℕ → ℕ → E
  pub next : E → ℕ → Option ℕ × E
  pub reach : E → ℕ
  pub same_node : Node M → Node M → Bool
  pub same_route : Route M → Route M → Bool
  pub match_with : Route M → M → Bool

pub record ExhaustedScan (M : Type 0) : Type 0 where
  pub node : Node M
  pub start : ℕ

pub record RegexpWildcard (M E : Type 0) : Type 0 where
  pub node : Node M
  pub ends : E
  pub scanned : Bool
  pub suffixed : Bool
  pub listed : Bool

pub record LookupState (M E : Type 0) : Type 0 where
  pub failed_matchers : List (Route M)
  pub failed_paths : List (Node M)
  pub exhausted : List (ExhaustedScan M)
  pub regexps : List (RegexpWildcard M E)
  pub dirty : Bool

unfoldable pub clear : {M E : Type 0} → LookupState M E → LookupState M E
clear s = record {
  failed_matchers = [];
  failed_paths = [];
  exhausted = [];
  regexps = [];
  dirty = false;
}

module _ {M E : Type 0} (lib : Library M E) where
  unfoldable pub scan_end_in : List (ExhaustedScan M) → Node M → ℕ → ℕ → ℕ
  scan_end_in [] n start end = end
  scan_end_in (x ∷ xs) n start end = elim (lib.same_node x.node n) [
    | true ↦ max start (min end (x.start + 1))
    | false ↦ scan_end_in xs n start end
  ]

  unfoldable pub scan_end : LookupState M E → Node M → ℕ → ℕ → ℕ
  unfolding scan_end_in
  scan_end s n start end = scan_end_in s.exhausted n start end

  unfoldable pub mark_in : List (ExhaustedScan M) → Node M → ℕ → List (ExhaustedScan M)
  mark_in [] n start = (record { node = n; start = start }) ∷ []
  mark_in (x ∷ xs) n start = elim (lib.same_node x.node n) [
    | true ↦ (record x { start = min x.start start }) ∷ xs
    | false ↦ x ∷ mark_in xs n start
  ]

  unfoldable pub mark_exhausted : LookupState M E → Node M → ℕ → LookupState M E
  unfolding mark_in
  mark_exhausted s n start = record s { dirty = true; exhausted = mark_in s.exhausted n start }

  unfoldable pub contains_node : List (Node M) → Node M → Bool
  contains_node [] n = false
  contains_node (x ∷ xs) n = lib.same_node x n || contains_node xs n

  unfoldable pub path_failed : LookupState M E → Node M → Bool
  unfolding contains_node
  path_failed s n = contains_node s.failed_paths n

  unfoldable pub set_path_failed : LookupState M E → Node M → LookupState M E
  set_path_failed s n = record s { dirty = true; failed_paths = s.failed_paths ++ n ∷ [] }

  unfoldable pub contains_route : List (Route M) → Route M → Bool
  contains_route [] r = false
  contains_route (x ∷ xs) r = lib.same_route x r || contains_route xs r

  unfoldable pub matcher_failed : LookupState M E → Route M → Bool
  unfolding contains_route
  matcher_failed s r = contains_route s.failed_matchers r

  unfoldable pub set_matcher_failed : LookupState M E → Route M → LookupState M E
  set_matcher_failed s r = record s { dirty = true; failed_matchers = r ∷ s.failed_matchers }

  abbrev new_wildcard : Node M → RegexpWildcard M E
  new_wildcard n = record {
    node = n;
    ends = lib.new_ends;
    scanned = false;
    suffixed = false;
    listed = false;
  }

  -- regexp: the state of n, from the first entry for it, or a new one.
  unfoldable pub regexp_in : List (RegexpWildcard M E) → Node M → RegexpWildcard M E
  regexp_in [] n = new_wildcard n
  regexp_in (w ∷ ws) n = elim (lib.same_node w.node n) [ true ↦ w | false ↦ regexp_in ws n ]

  unfoldable pub put_regexp :
      List (RegexpWildcard M E) → RegexpWildcard M E → List (RegexpWildcard M E)
  put_regexp [] v = v ∷ []
  put_regexp (w ∷ ws) v = elim (lib.same_node w.node v.node) [
    | true ↦ v ∷ ws
    | false ↦ w ∷ put_regexp ws v
  ]

  abbrev with_regexp : LookupState M E → RegexpWildcard M E → LookupState M E
  unfolding put_regexp
  with_regexp s w = record s { dirty = true; regexps = put_regexp s.regexps w }

  unfoldable pub retry_scan : LookupState M E → Node M → ℕ → Bool × LookupState M E
  unfolding regexp_in with_regexp
  retry_scan s n start =
      let w = regexp_in s.regexps n in
      (
        w.scanned && (not w.listed || leb start (lib.reach w.ends)),
        with_regexp s (record w { scanned = true; listed = false }),
      )

  unfoldable pub retry_suffix : LookupState M E → Node M → Bool × LookupState M E
  unfolding regexp_in with_regexp
  retry_suffix s n =
      let w = regexp_in s.regexps n in (w.suffixed, with_regexp s (record w { suffixed = true }))

  -- ends: the listing, and the state with it. `put_ends` is what a call of Next writes to it.
  unfoldable pub ends_of : LookupState M E → Node M → Bytes → Bytes → ℕ → ℕ → E × LookupState M E
  unfolding regexp_in with_regexp
  ends_of s n re text start delim =
      let w = regexp_in s.regexps n in
      let e = lib.start w.ends re text start delim in
      (e, with_regexp s (record w { listed = true; ends = e }))

  unfoldable pub put_ends : LookupState M E → Node M → E → LookupState M E
  unfolding regexp_in with_regexp
  put_ends s n e = with_regexp s (record (regexp_in s.regexps n) { ends = e })

  unfoldable pub match_tail : LookupState M E → Node M → Bytes → Bytes → Bool × LookupState M E
  unfolding regexp_in with_regexp
  match_tail s n re text =
      let s' =
        if (head n).nested
        then with_regexp s (record (regexp_in s.regexps n) { listed = false })
        else s in
      (lib.match_string re text, s')
