-- ===== src/Lookup/Trail.antt =====
-- What a lookup by path answers, said without the walk: which node a path leads to, by which
-- captures, and which candidates there are with the slash at the end added or taken away.
use fox.Prelude.{
  ◌≡◌, ◌≢◌, ◌⊎◌, Bool, true, false, Option, none, some, List, [], ◌∷◌, ◌++◌, Bytes, index_byte,
  get_elem?,
}
use fox.Route.{Route}
use fox.Node.{Node, Nodes, node, nil, cons, head, key, routes, statics, params, wildcards}
use fox.Lookup.{Library}
use fox.Lookup.Accept.{is_exact_slash, has_method, all_match}
use fox.Lookup.State.{Found, has_suffix}

pub data In {M : Type 0} (c : Node M) : Nodes M → Type 0 where
  first : {cs : Nodes M} → In c (cons c cs)
  later : {d : Node M} {cs : Nodes M} → In c cs → In c (cons d cs)

-- An expression of a node matches what is captured.
abbrev pub MayCapture : {M E : Type 0} → Library M E → Option Bytes → Bytes → Type 0
MayCapture lib none v = Unit
MayCapture lib (some re) v = lib.match_string re v ≡ true

-- The ways from the root: to a node, from its parent, over a text and with these captures.
pub data Trail {M E : Type 0} (lib : Library M E) (root : Node M)
    : Option (Node M) → Node M → Bytes → List Bytes → Type 0 where
  here : Trail lib root none root [] []
  by_static :
      {up : Option (Node M)} {n c : Node M} {t : Bytes} {vs : List Bytes}
      → Trail lib root up n t vs
      → In c (statics n)
      → Trail lib root (some n) c (t ++ key c) vs
  by_param :
      {up : Option (Node M)} {n c : Node M} {t v : Bytes} {vs : List Bytes}
      → Trail lib root up n t vs
      → In c (params n)
      → v ≢ []
      → index_byte v b'/' ≡ none
      → MayCapture lib (head c).regexp v
      → Trail lib root (some n) c (t ++ v) (vs ++ v ∷ [])
  by_wildcard :
      {up : Option (Node M)} {n c : Node M} {t v : Bytes} {vs : List Bytes}
      → Trail lib root up n t vs
      → In c (wildcards n)
      → v ≢ []
      → MayCapture lib (head c).regexp v
      → Trail lib root (some n) c (t ++ v) (vs ++ v ∷ [])

-- What is recorded: the captures in their order, behind those of before, or nothing more.
abbrev pub Recorded : Bool → List Bytes → List Bytes → List Bytes → Type 0
Recorded true before vs captured = captured ≡ before
Recorded false before vs captured = captured ≡ before ++ vs

module _ {M E : Type 0} (lib : Library M E) where
  -- The method and the matchers of a route take the request.
  abbrev pub Takes : Bytes → Route M → Type 0
  Takes method r =
      (r.method_fast ≡ method)
      ⊎ ((has_method r.methods method ≡ true) × (all_match lib r r.matchers ≡ true))

  -- A text leads to a node, or to the parent of an optional wildcard whose capture is empty.
  pub data Leads (root : Node M) (n : Node M) (r : Route M) (t : Bytes) : List Bytes → Type 0 where
    to_node :
        {up : Option (Node M)} {vs : List Bytes} → Trail lib root up n t vs → Leads root n r t vs
    to_empty :
        {up : Option (Node M)} {p : Node M} {vs : List Bytes}
        → Trail lib root up p t vs
        → In n (wildcards p)
        → r.pattern.optional_catch_all ≡ true
        → Leads root n r t (vs ++ [] ∷ [])

  -- A direct match; or a candidate, which is not of an ExactSlash route, for the path with a slash
  -- added, unless it ends in one; or for the path with its slash taken away, unless it ends in two.
  pub data Matches (root : Node M) (path : Bytes) (lazy : Bool) (before : List Bytes) (n : Node M)
      (r : Route M) (captured : List Bytes) : Bool → Type 0 where
    direct :
        {vs : List Bytes}
        → Leads root n r path vs
        → Recorded lazy before vs captured
        → Matches root path lazy before n r captured false
    slash_added :
        {vs : List Bytes}
        → is_exact_slash r.handle_slash ≡ false
        → has_suffix path (b'/' ∷ []) ≡ false
        → Leads root n r (path ++ b'/' ∷ []) vs
        → Recorded lazy before vs captured
        → Matches root path lazy before n r captured true
    slash_removed :
        {up : Option (Node M)} {t : Bytes} {vs : List Bytes}
        → is_exact_slash r.handle_slash ≡ false
        → r.pattern.catch_all ≡ false
        → has_suffix path (b'/' ∷ b'/' ∷ []) ≡ false
        → path ≡ t ++ b'/' ∷ []
        → Trail lib root up n t vs
        → Recorded lazy before vs captured
        → Matches root path lazy before n r captured true

  -- The route that is found, and why.
  abbrev pub IsAnswer : Node M → Bytes → Bytes → Bool → List Bytes → Found M → Type 0
  IsAnswer root method path lazy before f =
      (r : Route M) × (get_elem? (routes f.node) f.index ≡ some r)
      × Takes method r
      × Matches root path lazy before f.node r f.captured f.tsr

-- The trees on which the walk has no use for the Pike VM: no wildcard has an expression, and no
-- parameter or wildcard has the key "/", which is that of a static node.
abbrev mutual
  pub IsPlain : {M : Type 0} → Node M → Type 0
  IsPlain (node h rs st ps ws) = ArePlain st × AreOthers ps × AreOthers ws × LackRegexps ws

  pub ArePlain : {M : Type 0} → Nodes M → Type 0
  ArePlain nil = Unit
  ArePlain (cons c cs) = IsPlain c × ArePlain cs

  pub AreOthers : {M : Type 0} → Nodes M → Type 0
  AreOthers nil = Unit
  AreOthers (cons c cs) = (key c ≢ b'/' ∷ []) × IsPlain c × AreOthers cs

  pub LackRegexps : {M : Type 0} → Nodes M → Type 0
  LackRegexps nil = Unit
  LackRegexps (cons c cs) = ((head c).regexp ≡ none) × LackRegexps cs
