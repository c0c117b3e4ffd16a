-- ===== src/Tree/Walk.antt =====
-- tree.go: the walk of insertTokens (insertStatic, insertParam, insertWildcard) down the routing
-- tree. The tree of names is passed along: the answer is the node and the new names. One unit of
-- fuel is one call of insertTokens. `equal` is the Equal method of the matchers.
pub mod Stuck
pub mod Fuel
use fox.Prelude.{
  ℕ, zero, suc, Bool, true, false, ◌&&◌, ◌||◌, Option, none, some, List, [], ◌∷◌, ◌==◌,
  if◌then◌else◌, length, drop, take, Bytes,
}
use fox.Route.{static, param, wildcard, Token, Route, is_nil}
use fox.Node.{
  Head, Node, Nodes, node, nil, key, routes, statics, params, wildcards, with_routes, with_statics,
  with_params, with_wildcards, put, get_static_edge, add_static_edge, get_param_edge,
  add_param_edge, get_wildcard_edge, add_wildcard_edge,
}
use fox.Tree.{
  InsertMode, mode_insert, mode_update, Result, ok, err, ◌>>=◌, route_not_found, internal,
  out_of_fuel, longest_prefix, static_node, cut_child, replace_edge,
}
use fox.Tree.Insert.{canonical_key, insert_named, attach, update_at}

-- A node of a parameter or a wildcard, and the rest of a static token.
abbrev pub keyed_node : {M : Type 0} → Bytes → Option Bytes → Bool → Node M
keyed_node k re nested =
    node (record { label = 0; key = k; regexp = re; host = false; nested = nested }) [] nil nil nil

abbrev pub static_token : Bytes → Bool → Token
static_token search hsplit = record {
  regexp = none;
  value = search;
  typ = static;
  nested = false;
  hsplit = hsplit;
}

-- A call of insertTokens: the parent, the node and the tokens.
abbrev pub Walk : Type 0 → Type 0
Walk M = Option (Node M) → Node M → List Token → Result M (Node M × Node M)

module _ {M : Type 0} where
  -- The new child, and then what is done with it.
  abbrev pub then_node :
      Result M (Node M × Node M) → (Node M → Result M (Node M)) → Result M (Node M × Node M)
  then_node r f = r >>= λ p. f p.0 >>= λ n. ok (n, p.1)

  -- An update does not make new nodes.
  abbrev pub only_insert :
      InsertMode → Route M → Result M (Node M × Node M) → Result M (Node M × Node M)
  only_insert mode_update route r = err (route_not_found route)
  only_insert mode_insert route r = r

  -- The child is cut behind `prefix` bytes. The first case is the one where nothing is left of the
  -- token: with more tokens the insertion goes on at the split node, and the old child is added to
  -- it at the end; without, the split node takes the route.
  unfoldable pub split_static :
      Walk M
      → Node M
      → Node M
      → Node M
      → Token
      → ℕ
      → List Token
      → Route M
      → Result M (Node M × Node M)
  unfolding insert_named replace_edge cut_child
  split_static walk names n child tk prefix remaining route =
      let fork = static_node (take prefix tk.value) tk.hsplit [] in
      elim (drop prefix tk.value) [
        | [] ↦ elim remaining [
          | t ∷ ts ↦
              then_node (walk (some n) fork (t ∷ ts))
                (λ c. replace_edge n (add_static_edge c (cut_child child prefix)))
          | [] ↦ insert_named names route >>= λ names'.
              replace_edge n
                (with_routes (add_static_edge fork (cut_child child prefix)) (route ∷ []))
              >>= λ n'. ok (n', names')
        ]
        | b ∷ s ↦ then_node (walk (some n) (static_node (b ∷ s) tk.hsplit []) remaining) (λ c.
            replace_edge n (add_static_edge (add_static_edge fork (cut_child child prefix)) c))
      ]

  unfoldable pub insert_static :
      Walk M
      → Node M
      → Option (Node M)
      → Node M
      → Token
      → List Token
      → Route M
      → InsertMode
      → Result M (Node M × Node M)
  unfolding split_static
  insert_static walk names p n tk remaining route mode = elim tk.value [
    | [] ↦ walk p n remaining
    | b ∷ s ↦ elim (get_static_edge n b) [
      | none ↦ only_insert mode route (
          then_node (walk (some n) (static_node (b ∷ s) tk.hsplit []) remaining)
            (λ c. ok (add_static_edge n c)))
      | some (idx, child) ↦
          let prefix = longest_prefix (b ∷ s) (key child) in
          elim (prefix == length (key child)) [
            | true ↦
                then_node
                  (walk (some n) child (static_token (drop prefix (b ∷ s)) tk.hsplit ∷ remaining))
                  (λ c. ok (with_statics n (put (statics n) idx c)))
            | false ↦
                only_insert mode route (split_static walk names n child tk prefix remaining route)
          ]
    ]
  ]

  unfoldable pub insert_param :
      Walk M → Node M → Token → List Token → Route M → InsertMode → Result M (Node M × Node M)
  unfolding canonical_key
  insert_param walk n tk remaining route mode = elim (canonical_key tk) [
    | none ↦ err internal
    | some k ↦ elim (get_param_edge n k) [
      | none ↦ only_insert mode route (
          then_node (walk (some n) (keyed_node k tk.regexp false) remaining)
            (λ c. ok (add_param_edge n c)))
      | some (idx, child) ↦
          then_node (walk (some n) child remaining) (λ c. ok (with_params n (put (params n) idx c)))
    ]
  ]

  unfoldable pub insert_wildcard :
      Walk M → Node M → Token → List Token → Route M → InsertMode → Result M (Node M × Node M)
  unfolding canonical_key
  insert_wildcard walk n tk remaining route mode = elim (canonical_key tk) [
    | none ↦ err internal
    | some k ↦ elim (get_wildcard_edge n k) [
      | none ↦ only_insert mode route (
          then_node (walk (some n) (keyed_node k tk.regexp tk.nested) remaining)
            (λ c. ok (add_wildcard_edge n c)))
      | some (idx, child) ↦
          then_node (walk (some n) child remaining)
            (λ c. ok (with_wildcards n (put (wildcards n) idx c)))
    ]
  ]

module _ {M : Type 0} (equal : M → M → Bool) where
  unfoldable pub insert_tokens :
      ℕ
      → Node M
      → Route M
      → InsertMode
      → Option (Node M)
      → Node M
      → List Token
      → Result M (Node M × Node M)
  unfolding attach update_at insert_static insert_param insert_wildcard
  insert_tokens zero names route mode p n tokens = err out_of_fuel
  insert_tokens (suc f) names route mode_insert p n [] = attach equal p n names route
  insert_tokens (suc f) names route mode_update p n [] = update_at equal n names route
  insert_tokens (suc f) names route mode p n (tk ∷ remaining) = elim tk.typ [
    | static ↦ insert_static (insert_tokens f names route mode) names p n tk remaining route mode
    | param ↦ insert_param (insert_tokens f names route mode) n tk remaining route mode
    | wildcard ↦ insert_wildcard (insert_tokens f names route mode) n tk remaining route mode
  ]
