-- ===== src/Tree/Walk/Fuel.antt =====
-- The fuel of insertTokens: one more than `cost` of the tokens is enough on valid trees.
use fox.Prelude.{
  ℕ, zero, suc, ◌+◌, ◌≤◌, ◌<◌, ◌≡◌, ◌⊎◌, refl, sym, subst, Bool, false, Option, some, List, [], ◌∷◌,
  ◌==◌, length, drop, Bytes, Bool-cases, Option-cases, List-cases, inl, inr, arith, beq,
  length-drop, ==_iff,
}
use fox.Route.{static, param, wildcard, NodeType, Token, Route}
use fox.Node.{
  Node, Nodes, node, nil, cons, key, statics, params, wildcards, put, find_key, get_static_edge,
  add_static_edge, get_param_edge, add_param_edge, add_wildcard_edge, with_params, with_statics,
  with_wildcards, get_wildcard_edge,
}
use fox.Node.Content.{IsValid, AreKeyed, HeadIs}
use fox.Node.Edges.Update.{get_static_edge-IsValid}
use fox.Tree.{InsertMode, mode_insert, mode_update, ok, longest_prefix}
use fox.Tree.Insert.{canonical_key}
use fox.Tree.Walk.{Walk, split_static, insert_static, insert_param, insert_wildcard, insert_tokens}
use fox.Tree.Walk.Stuck.{
  is_stuck, bind-free, then_node-free, only_insert-free, replace_edge-free, insert_named-free,
  attach-unstuck, update_at-free,
}

-- Each byte of a static token may take one call more.
abbrev pub cost : List Token → ℕ
cost [] = 0
cost (tk ∷ tokens) = suc (length tk.value + cost tokens)

longest_prefix-pos : (b : ℕ) (s k : Bytes) → HeadIs b k → 1 ≤ longest_prefix (b ∷ s) k
unfolding longest_prefix
longest_prefix-pos b s [] h = absurd h
longest_prefix-pos b s (x ∷ k) h = rw ((==_iff b x).1 (sym h)) (omega arith)

pub NodeType-cases : (t : NodeType) → (t ≡ static) ⊎ ((t ≡ param) ⊎ (t ≡ wildcard))
NodeType-cases static = inl refl
NodeType-cases param = inr (inl refl)
NodeType-cases wildcard = inr (inr refl)

module _ {M : Type 0} where
  some-pair :
      {i j : ℕ} {c d : Node M} → Path (Option (ℕ × Node M)) (some (i, c)) (some (j, d)) → c ≡ d
  some-pair h = cc h

  get_param-IsValid :
      (ps : Nodes M) (k : Bytes) (idx : ℕ) (child : Node M)
      → AreKeyed ps
      → find_key ps k ≡ some (idx, child)
      → IsValid child
  unfolding find_key
  get_param-IsValid nil k idx child v h = ground (arith, h)
  get_param-IsValid (cons c cs) k idx child v h = elim (Bool-cases (beq (key c) k)) [
    | inl e ↦ subst IsValid {x = c} {y = child} (some-pair (rw (find_key, e) at h)) v.1
    | inr e ↦ elim (Option-cases (find_key cs k)) [
      | inl f ↦ ground (arith, (rw (find_key, e, f) at h))
      | inr ((i, d), f) ↦
          subst IsValid {x = d} {y = child} (some-pair (rw (find_key, e, f) at h))
            (get_param-IsValid cs k i d v.2 f)
    ]
  ]

  pub param-IsValid :
      (n : Node M) (k : Bytes) (idx : ℕ) (child : Node M)
      → IsValid n
      → get_param_edge n k ≡ some (idx, child)
      → IsValid child
  unfolding get_param_edge
  param-IsValid (node h rs st ps ws) k idx child v e = get_param-IsValid ps k idx child v.2 e

  pub wildcard-IsValid :
      (n : Node M) (k : Bytes) (idx : ℕ) (child : Node M)
      → IsValid n
      → get_wildcard_edge n k ≡ some (idx, child)
      → IsValid child
  unfolding get_wildcard_edge
  wildcard-IsValid (node h rs st ps ws) k idx child v e = get_param-IsValid ws k idx child v.3 e

  -- A call that has fuel for tokens of a lower cost than `k`.
  abbrev Serves : Walk M → ℕ → Type 0
  Serves walk k =
      (p : Option (Node M)) (n : Node M) (tokens : List Token)
      → IsValid n
      → cost tokens < k
      → is_stuck (walk p n tokens) ≡ false

  split_static-free :
      (walk : Walk M) (names n child : Node M) (tk : Token) (prefix k : ℕ) (remaining : List Token)
      (route : Route M)
      → Serves walk k
      → IsValid names
      → cost remaining < k
      → is_stuck (split_static walk names n child tk prefix remaining route) ≡ false
  unfolding split_static
  split_static-free walk names n child tk prefix k remaining route h v l =
      elim (List-cases (drop prefix tk.value)) [
        | inr (b, s, e) ↦
            rw (split_static, e)
              (then_node-free _ _ (h (some n) _ remaining (tt, tt, tt, tt) l)
                (λ c. replace_edge-free n _))
        | inl e ↦ elim (List-cases remaining) [
          | inr (t, ts, f) ↦
              rw (split_static, e, f)
                (then_node-free _ _ (h (some n) _ (t ∷ ts) (tt, tt, tt, tt) (rw f at l))
                  (λ c. replace_edge-free n _))
          | inl f ↦
              rw (split_static, e, f)
                (bind-free _ _ (insert_named-free names route v)
                  (λ names'. bind-free _ _ (replace_edge-free n _) (λ n'. refl)))
        ]
      ]

  insert_static-free :
      (walk : Walk M) (names : Node M) (p : Option (Node M)) (n : Node M) (tk : Token)
      (remaining : List Token) (route : Route M) (mode : InsertMode) (k : ℕ)
      → Serves walk k
      → IsValid names
      → IsValid n
      → cost (tk ∷ remaining) ≤ k
      → is_stuck (insert_static walk names p n tk remaining route mode) ≡ false
  unfolding insert_static
  insert_static-free walk names p n tk remaining route mode k h v u l = elim (List-cases tk.value) [
    | inl e ↦ rw (insert_static, e) (h p n remaining u (omega arith))
    | inr (b, s, e) ↦
        let m : suc (suc (length s) + cost remaining) ≤ k = rw e at l in
        elim (Option-cases (get_static_edge n b)) [
          | inl f ↦
              rw (insert_static, e, f)
                (only_insert-free mode route _ (
                  then_node-free _ (λ c. ok (add_static_edge n c))
                    (h (some n) _ remaining (tt, tt, tt, tt) (omega (arith, m))) (λ c. refl)))
          | inr ((idx, child), f) ↦
              let (a, w, _, _) = get_static_edge-IsValid n b idx child u f in
              let pos = longest_prefix-pos b s (key child) a in
              let cut = length-drop (longest_prefix (b ∷ s) (key child)) (b ∷ s) in
              elim (Bool-cases (longest_prefix (b ∷ s) (key child) == length (key child))) [
                | inl g ↦
                    rw (insert_static, e, f, g)
                      (then_node-free _ (λ c. ok (with_statics n (put (statics n) idx c)))
                        (h (some n) child _ w (omega (arith, m, pos, cut))) (λ c. refl))
                | inr g ↦
                    rw (insert_static, e, f, g)
                      (only_insert-free mode route _ (
                        split_static-free walk names n child tk _ k remaining route h v
                          (omega (arith, m))))
              ]
        ]
  ]

  insert_param-free :
      (walk : Walk M) (n : Node M) (tk : Token) (remaining : List Token) (route : Route M)
      (mode : InsertMode) (k : ℕ)
      → Serves walk k
      → IsValid n
      → cost (tk ∷ remaining) ≤ k
      → is_stuck (insert_param walk n tk remaining route mode) ≡ false
  unfolding insert_param
  insert_param-free walk n tk remaining route mode k h u l =
      elim (Option-cases (canonical_key tk)) [
        | inl e ↦ rw (insert_param, e) refl
        | inr (q, e) ↦ elim (Option-cases (get_param_edge n q)) [
          | inl f ↦
              rw (insert_param, e, f)
                (only_insert-free mode route _ (
                  then_node-free _ (λ c. ok (add_param_edge n c))
                    (h (some n) _ remaining (tt, tt, tt, tt) (omega arith)) (λ c. refl)))
          | inr ((idx, child), f) ↦
              rw (insert_param, e, f)
                (then_node-free _ (λ c. ok (with_params n (put (params n) idx c)))
                  (h (some n) child remaining (param-IsValid n q idx child u f) (omega arith))
                  (λ c. refl))
        ]
      ]

  insert_wildcard-free :
      (walk : Walk M) (n : Node M) (tk : Token) (remaining : List Token) (route : Route M)
      (mode : InsertMode) (k : ℕ)
      → Serves walk k
      → IsValid n
      → cost (tk ∷ remaining) ≤ k
      → is_stuck (insert_wildcard walk n tk remaining route mode) ≡ false
  unfolding insert_wildcard
  insert_wildcard-free walk n tk remaining route mode k h u l =
      elim (Option-cases (canonical_key tk)) [
        | inl e ↦ rw (insert_wildcard, e) refl
        | inr (q, e) ↦ elim (Option-cases (get_wildcard_edge n q)) [
          | inl f ↦
              rw (insert_wildcard, e, f)
                (only_insert-free mode route _ (
                  then_node-free _ (λ c. ok (add_wildcard_edge n c))
                    (h (some n) _ remaining (tt, tt, tt, tt) (omega arith)) (λ c. refl)))
          | inr ((idx, child), f) ↦
              rw (insert_wildcard, e, f)
                (then_node-free _ (λ c. ok (with_wildcards n (put (wildcards n) idx c)))
                  (h (some n) child remaining (wildcard-IsValid n q idx child u f) (omega arith))
                  (λ c. refl))
        ]
      ]

  -- On valid trees of routes and of names, with fuel for more than the cost of the tokens, insertTokens
  -- never runs out of fuel: each of its calls goes on with tokens of a lower cost.
  pub insert_tokens-free :
      (equal : M → M → Bool) (f : ℕ) (names : Node M) (route : Route M) (mode : InsertMode)
      (p : Option (Node M)) (n : Node M) (tokens : List Token)
      → IsValid names
      → IsValid n
      → cost tokens < f
      → is_stuck (insert_tokens equal f names route mode p n tokens) ≡ false
  unfolding insert_tokens
  insert_tokens-free equal zero names route mode p n tokens v u l = ground arith
  insert_tokens-free equal (suc f) names route mode_insert p n [] v u l =
      attach-unstuck equal p n names route v
  insert_tokens-free equal (suc f) names route mode_update p n [] v u l =
      update_at-free equal n names route v
  insert_tokens-free equal (suc f) names route mode p n (tk ∷ remaining) v u l =
      let serves : Serves (insert_tokens equal f names route mode) f =
        λ q m ts w c. insert_tokens-free equal f names route mode q m ts v w c in
      elim (NodeType-cases tk.typ) [
        | inl e ↦
            rw e (insert_static-free _ names p n tk remaining route mode f serves v u (omega arith))
        | inr (inl e) ↦
            rw e (insert_param-free _ n tk remaining route mode f serves u (omega arith))
        | inr (inr e) ↦
            rw e (insert_wildcard-free _ n tk remaining route mode f serves u (omega arith))
      ]
