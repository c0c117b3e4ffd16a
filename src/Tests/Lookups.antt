-- ===== src/Tests/Lookups.antt =====
-- Concrete lookups, in a tree with the routes /users/{id}, /users/new and /files/+{name}.
use fox.Prelude.{
  ℕ, ◌+◌, ◌≡◌, refl, Bool, true, false, ◌&&◌, not, if◌then◌else◌, inl, Option, none, some, [], ◌∷◌,
  Bytes, codes, beq, index_byte, arith,
}
use fox.Route.{exact_slash, Route}
use fox.Node.{Head, Node, node, nil, cons, key}
use fox.Node.Content.{IsValid}
use fox.Lookup.{Library, LookupState}
use fox.Lookup.State.{Found, Answer, found}
use fox.Lookup.Path.{VmRun, lookup_by_path}
use fox.Lookup.Step.{has_choices}
use fox.Lookup.Trail.{first, Trail, here, by_static, by_param, IsAnswer, IsPlain}
use fox.Lookup.Finds.{lookup_by_path-finds}
use fox.Lookup.Finds.Down.{IsSimple}
use fox.Lookup.Finds.Rounds.{IsApart}
use fox.Lookup.Goes.{IsRight}
use fox.Lookup.Ends.{lookup_by_path-IsRight}

abbrev route : ℕ → Bytes → Bool → Route ℕ
route i str catch_all = record {
  handler = i;
  name = [];
  methods = codes "GET" ∷ [];
  params = [];
  matchers = [];
  method_fast = codes "GET";
  pattern = record {
    str = str;
    tokens = [];
    optional_catch_all = false;
    catch_all = catch_all;
    end_host = 0;
    host_params = 0;
  };
  priority = 0;
  handle_slash = exact_slash;
  nested = false;
}

abbrev head_of : ℕ → Bytes → Head
head_of c k = record { label = c; key = k; regexp = none; host = false; nested = false }

abbrev new_leaf : Node ℕ
new_leaf = node (head_of b'n' (codes "new")) (route 1 (codes "/users/new") false ∷ []) nil nil nil

abbrev id_leaf : Node ℕ
id_leaf = node (head_of 0 (codes "?")) (route 2 (codes "/users/{id}") false ∷ []) nil nil nil

abbrev name_leaf : Node ℕ
name_leaf = node (head_of 0 (codes "*")) (route 3 (codes "/files/+{name}") true ∷ []) nil nil nil

abbrev tree : Node ℕ
tree =
    node (head_of 0 []) []
      (cons
        (node (head_of b'/' (codes "/")) []
          (cons (node (head_of b'f' (codes "files/")) [] nil nil (cons name_leaf nil)) (
            cons
              (node (head_of b'u' (codes "users/")) [] (cons new_leaf nil) (cons id_leaf nil) nil)
              nil))
          nil nil)
        nil)
      nil nil

-- Expressions do not occur in the tree, and its nodes differ in their keys.
abbrev library : Library ℕ (Unit {0})
library = record {
  match_string = λ re s. false;
  consumes = λ re c. true;
  new_ends = tt;
  start = λ e re s from c. tt;
  next = λ e from. (none, tt);
  reach = λ e. 0;
  same_node =
      λ a b. beq (key a) (key b) && (if has_choices a then has_choices b else not (has_choices b));
  same_route = λ a b. beq a.pattern.str b.pattern.str;
  match_with = λ r m. true;
}

abbrev no_vm : VmRun ℕ (Unit {0})
no_vm f captured memo = (none, memo)

abbrev blank : LookupState ℕ (Unit {0})
blank = record {
  failed_matchers = [];
  failed_paths = [];
  exhausted = [];
  regexps = [];
  dirty = false;
}

users_get : Option (Answer ℕ × LookupState ℕ (Unit {0}))
unfolding lookup_by_path
users_get = lookup_by_path library no_vm (codes "GET") false 30 tree (codes "/users/7") [] blank

tree-IsValid : IsValid tree
tree-IsValid = ground arith

tree-IsPlain : IsPlain tree
tree-IsPlain = ground arith

lookup_by_path-IsRight_example :
    (fuel : ℕ) × (a : Answer ℕ) × (memo' : LookupState ℕ (Unit {0})) × ((more : ℕ)
      → lookup_by_path library no_vm
          (codes "GET")
          false
          (fuel + more)
          tree
          (codes "/users/7")
          []
          blank
        ≡ some (a, memo'))
    × IsRight library (codes "GET") false tree (codes "/users/7") [] a
lookup_by_path-IsRight_example =
    lookup_by_path-IsRight library no_vm (codes "GET") false tree (codes "/users/7") [] blank
      tree-IsValid tree-IsPlain

abbrev users : Node ℕ
users = node (head_of b'u' (codes "users/")) [] (cons new_leaf nil) (cons id_leaf nil) nil

abbrev slash_node : Node ℕ
slash_node = node (head_of b'/' (codes "/")) [] (cons users nil) nil nil

abbrev users_tree : Node ℕ
users_tree = node (head_of 0 []) [] (cons slash_node nil) nil nil

abbrev id_route : Route ℕ
id_route = route 2 (codes "/users/{id}") false

users_tree-IsValid : IsValid users_tree
users_tree-IsValid = ground arith

users_tree-IsPlain : IsPlain users_tree
users_tree-IsPlain = ground arith

users_tree-IsSimple : IsSimple users_tree
users_tree-IsSimple = ground arith

users_tree-IsApart : IsApart library (codes "GET") false users_tree (codes "/users/7") id_route
users_tree-IsApart n h = ground (arith, h)

users-Trail : Trail library users_tree (some users) id_leaf (codes "/users/7") (codes "7" ∷ [])
unfolding index_byte
users-Trail =
    by_param {v = codes "7"} (by_static (by_static here first) first) first (λ h. cc) refl tt

lookup_by_path-finds_example :
    (fuel : ℕ) × (y : Found ℕ) × (memo' : LookupState ℕ (Unit {0})) × ((more : ℕ)
      → lookup_by_path library no_vm
          (codes "GET")
          false
          (fuel + more)
          users_tree
          (codes "/users/7")
          []
          blank
        ≡ some (found y, memo'))
    × IsAnswer library users_tree (codes "GET") (codes "/users/7") false [] y
lookup_by_path-finds_example =
    lookup_by_path-finds library no_vm (codes "GET") false users_tree (codes "/users/7") id_route []
      blank users_tree-IsValid users_tree-IsPlain users_tree-IsSimple users_tree-IsApart refl
      (inl refl) (some users) id_leaf (codes "7" ∷ []) 0 users-Trail refl
