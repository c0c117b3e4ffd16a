-- ===== src/Tree/Names/Insert.antt =====
-- insertName on a valid tree of names adds one name, or reports the route that has it.
use mathlib.Core.Path.{ap₂}
use fox.Prelude.{
  take-length_append, drop-length_append, ℕ, zero, suc, ◌<◌, ◌≡◌, ◌≢◌, refl, subst, sym, ap, ◌∙◌,
  true, false, some, List, [], ◌∷◌, ◌++◌, inl, inr, arith, ◌==◌, ==_iff, Option-cases, Bytes,
  length, take, drop, length-append, append-nil,
}
use fox.Route.{Route}
use fox.Node.{
  Node, Nodes, node, key, head, statics, with_routes, with_statics, put, get_static_edge,
  add_static_edge,
}
use fox.Node.Content.{Sym, byte, par, wild, syms, routes_at, IsValid, UpdatedAt}
use fox.Node.Edges.Update.{
  HeadIs-cons, under-key, UpdatedAt-under, add_update, put_update, get_static_edge-IsValid,
  get_static_edge-absent,
}
use fox.Tree.{
  InsertMode, mode_insert, mode_update, Result, ok, err, ◌>>=◌, name_conflict, longest_prefix,
  static_node,
}
use fox.Tree.Prefix.{Part, longest_prefix-split}
use fox.Tree.Split.{
  syms-append, leaf-OnlyAt, fork_of, cut_fork, fork_here, fork_there, fork-IsValid,
  replace_edge_lem, under-Part,
}
use fox.Tree.Names.{set_name, split_name, insert_name_in, insert_name}

longest_prefix_cons :
    (b : ℕ) (k1 k2 : Bytes) → longest_prefix (b ∷ k1) (b ∷ k2) ≡ suc (longest_prefix k1 k2)
unfolding longest_prefix
longest_prefix_cons b k1 k2 = ground arith

module _ {M : Type 0} where
  -- The outcome of an insertion at the path `p`: the tree holds the new route there, and nothing
  -- else is changed; or the mode is modeInsert and the conflict is the route that was there.
  abbrev pub Inserted : Node M → List Sym → Route M → InsertMode → Result M (Node M) → Type 0
  Inserted n p route mode (ok n') =
      (head n' ≡ head n)
      × IsValid n'
      × UpdatedAt n n' p (route ∷ [])
      × (mode ≡ mode_insert → routes_at n p ≡ [])
  Inserted n p route mode (err e) =
      (mode ≡ mode_insert)
      × (r : Route M) × (rs : List (Route M)) × (routes_at n p ≡ r ∷ rs)
      × (e ≡ name_conflict route r)

  head-with_statics : (n : Node M) (st : Nodes M) → head (with_statics n st) ≡ head n
  head-with_statics (node h rs _ ps ws) st = refl

  head-add_static_edge : (n d : Node M) → head (add_static_edge n d) ≡ head n
  unfolding add_static_edge
  head-add_static_edge (node h rs st ps ws) d = refl

  with_routes_update :
      (n : Node M) (rs : List (Route M))
      → IsValid n
      → IsValid (with_routes n rs) × UpdatedAt n (with_routes n rs) [] rs
  with_routes_update (node h rts st ps ws) rs v = (v, (refl, elsewhere))
    where
      elsewhere :
          (w : List Sym)
          → w ≢ []
          → routes_at (node h rs st ps ws) w ≡ routes_at (node h rts st ps ws) w
      elsewhere [] n = absurd (n refl)
      elsewhere (byte b ∷ w) n = refl
      elsewhere (par b ∷ w) n = refl
      elsewhere (wild b ∷ w) n = refl

  set_name-Inserted :
      (n : Node M) (route : Route M) (mode : InsertMode)
      → IsValid n
      → Inserted n [] route mode (set_name n route mode)
  unfolding set_name
  set_name-Inserted (node h [] st ps ws) route mode_insert v =
      let (a, b) = with_routes_update (node h [] st ps ws) (route ∷ []) v in (refl, a, b, λ _. refl)
  set_name-Inserted (node h (r ∷ rs) st ps ws) route mode_insert v = (refl, r, rs, refl, refl)
  set_name-Inserted (node h rs st ps ws) route mode_update v =
      let (a, b) = with_routes_update (node h rs st ps ws) (route ∷ []) v in (refl, a, b, λ e. cc)

  -- The child is cut where its key and the name part: the name ends there, or goes on.
  split_name-here :
      (n child : Node M) (idx c x : ℕ) (p r2 : Bytes) (route : Route M)
      → get_static_edge n c ≡ some (idx, child)
      → key child ≡ c ∷ p ++ x ∷ r2
      → split_name n child (c ∷ p) (suc (length p)) route
        ≡ ok (with_statics n (put (statics n) idx (fork_of (c ∷ p) false (route ∷ []) x r2 child)))
  unfolding split_name
  split_name-here n child idx c x p r2 route e g =
      let t : take (length p) p ≡ p = rw append-nil at (take-length_append p []) in
      let u : drop (length p) p ≡ [] = rw append-nil at (drop-length_append p []) in
      rw (split_name, u, t, cut_fork (c ∷ p) r2 false x child g)
        (replace_edge_lem n c idx child (fork_of (c ∷ p) false (route ∷ []) x r2 child) e refl)

  split_name-there :
      (n child : Node M) (idx c x y : ℕ) (p r1 r2 : Bytes) (route : Route M)
      → get_static_edge n c ≡ some (idx, child)
      → key child ≡ c ∷ p ++ x ∷ r2
      → split_name n child (c ∷ p ++ y ∷ r1) (suc (length p)) route
        ≡ ok (
            with_statics n (
              put (statics n) idx (
                add_static_edge
                  (fork_of (c ∷ p) false [] x r2 child)
                  (static_node (y ∷ r1) false (route ∷ [])))))
  unfolding split_name
  split_name-there n child idx c x y p r1 r2 route e g =
      rw
        (
          split_name,
          drop-length_append p (y ∷ r1),
          take-length_append p (y ∷ r1),
          cut_fork (c ∷ p) r2 false x child g,
        )
        (replace_edge_lem n c idx child
          (add_static_edge (fork_of (c ∷ p) false [] x r2 child)
            (static_node (y ∷ r1) false (route ∷ [])))
          e (unfold add_static_edge in refl))

  split_name-Inserted :
      (n child : Node M) (idx c x : ℕ) (p r1 r2 : Bytes) (route : Route M) (mode : InsertMode)
      → IsValid n
      → get_static_edge n c ≡ some (idx, child)
      → key child ≡ c ∷ p ++ x ∷ r2
      → Part r1 (x ∷ r2)
      → Inserted n
          (syms (c ∷ p ++ r1))
          route
          mode
          (split_name n child (c ∷ p ++ r1) (suc (length p)) route)
  split_name-Inserted n child idx c x p [] r2 route mode v e g d =
      let (k, u, l, at) = get_static_edge-IsValid n c idx child v e in
      let (a, b) =
        put_update n c idx child (fork_of (c ∷ p) false (route ∷ []) x r2 child) (syms p)
          (route ∷ []) v e refl refl (fork-IsValid (c ∷ p) r2 false (route ∷ []) x child u)
          (fork_here (c ∷ p) r2 false x child (route ∷ []) g) in
      let absent = at (syms p) ∙ rw append-nil at (under-Part (c ∷ p) [] r2 x child g tt) in
      subst
        (λ t.
          Inserted n (syms (c ∷ t)) route mode (split_name n child (c ∷ t) (suc (length p)) route))
        (sym (append-nil p))
        (rw (split_name-here n child idx c x p r2 route e g)
          (head-with_statics n _, a, b, λ _. absent))
  split_name-Inserted n child idx c x p (y ∷ r1) r2 route mode v e g d =
      let (k, u, l, at) = get_static_edge-IsValid n c idx child v e in
      let fork =
        add_static_edge (fork_of (c ∷ p) false [] x r2 child)
          (static_node (y ∷ r1) false (route ∷ [])) in
      let (f, o) =
        fork_there (c ∷ p) r2 false x y child (static_node (y ∷ r1) false (route ∷ [])) (syms r1)
          (route ∷ []) g d u refl refl (tt, tt, tt, tt) (leaf-OnlyAt (y ∷ r1) false (route ∷ [])) in
      let (a, b) =
        put_update n c idx child fork (syms p ++ syms (y ∷ r1)) (route ∷ []) v e
          (unfold add_static_edge in refl) (unfold add_static_edge in refl) f o in
      let absent = at (syms p ++ syms (y ∷ r1)) ∙ under-Part (c ∷ p) (y ∷ r1) r2 x child g d in
      rw (split_name-there n child idx c x y p r1 r2 route e g, syms-append p (y ∷ r1))
        (head-with_statics n _, a, b, λ _. absent)

  -- The recursion goes on below a child whose key the name begins with.
  descend_name :
      (n child : Node M) (idx c : ℕ) (p r1 : Bytes) (route : Route M) (mode : InsertMode)
      (r : Result M (Node M))
      → IsValid n
      → get_static_edge n c ≡ some (idx, child)
      → key child ≡ c ∷ p
      → Inserted child (syms r1) route mode r
      → Inserted n
          (syms (c ∷ p ++ r1))
          route
          mode
          (r >>= λ d. ok (with_statics n (put (statics n) idx d)))
  descend_name n child idx c p r1 route mode (ok d) v e g (hd, vd, upd, absent) =
      let (k, u, l, at) = get_static_edge-IsValid n c idx child v e in
      let under' = UpdatedAt-under child d (syms r1) (route ∷ []) hd upd in
      let (a, b) =
        put_update n c idx child d (syms p ++ syms r1) (route ∷ []) v e (ap (λ h. h.label) hd ∙ l)
          (rw (ap (λ h. h.key) hd, g) refl) vd (rw g at under') in
      rw (syms-append p r1) (
        head-with_statics n _,
        a,
        b,
        λ m. at (syms p ++ syms r1) ∙ rw g at (under-key child (syms r1)) ∙ absent m,
      )
  descend_name n child idx c p r1 route mode (err x) v e g (m, r, rs, h, q) =
      let (k, u, l, at) = get_static_edge-IsValid n c idx child v e in
      rw (syms-append p r1)
        (m, r, rs, at (syms p ++ syms r1) ∙ rw g at (under-key child (syms r1)) ∙ h, q)

  -- The step at a child that begins with the first byte, for a recursive call `rec`.
  abbrev at_child :
      (Node M → Bytes → Result M (Node M))
      → Node M
      → Node M
      → ℕ
      → Bytes
      → Route M
      → Result M (Node M)
  at_child rec n child idx search route =
      elim (longest_prefix search (key child) == length (key child)) [
        | true ↦ rec child (drop (longest_prefix search (key child)) search) >>= λ c.
            ok (with_statics n (put (statics n) idx c))
        | false ↦ split_name n child search (longest_prefix search (key child)) route
      ]

  at_child-Inserted :
      (rec : Node M → Bytes → Result M (Node M)) (n child : Node M) (idx b : ℕ) (p r1 r2 : Bytes)
      (route : Route M) (mode : InsertMode)
      → IsValid n
      → get_static_edge n b ≡ some (idx, child)
      → key child ≡ b ∷ p ++ r2
      → longest_prefix (b ∷ p ++ r1) (b ∷ p ++ r2) ≡ suc (length p)
      → Part r1 r2
      → Inserted child (syms r1) route mode (rec child r1)
      → Inserted n (syms (b ∷ p ++ r1)) route mode (at_child rec n child idx (b ∷ p ++ r1) route)
  at_child-Inserted rec n child idx b p r1 [] route mode v e g l d ih =
      let g' : key child ≡ b ∷ p = rw append-nil at g in
      let t : (longest_prefix (b ∷ p ++ r1) (key child) == length (key child)) ≡ true =
        rw (g, l, append-nil p) ((==_iff _ _).1 refl) in
      let u : drop (longest_prefix (b ∷ p ++ r1) (key child)) (b ∷ p ++ r1) ≡ r1 =
        rw (g, l) (drop-length_append p r1) in
      rw (at_child, t, u) (descend_name n child idx b p r1 route mode (rec child r1) v e g' ih)
  at_child-Inserted rec n child idx b p r1 (x ∷ r2) route mode v e g l d ih =
      let t : (longest_prefix (b ∷ p ++ r1) (key child) == length (key child)) ≡ false =
        rw (g, l) (ground (arith, length-append p (x ∷ r2))) in
      let u : longest_prefix (b ∷ p ++ r1) (key child) ≡ suc (length p) = rw (g, l) refl in
      rw (at_child, t, u) (split_name-Inserted n child idx b x p r1 r2 route mode v e g d)

  insert_name_in-Inserted :
      (f : ℕ) (n : Node M) (search : Bytes) (route : Route M) (mode : InsertMode)
      → length search < f
      → IsValid n
      → Inserted n (syms search) route mode (insert_name_in f n search route mode)
  unfolding insert_name_in
  insert_name_in-Inserted zero n search route mode h v = elim h [ ]
  insert_name_in-Inserted (suc f) n [] route mode h v = set_name-Inserted n route mode v
  insert_name_in-Inserted (suc f) n (b ∷ s) route mode h v =
      elim (Option-cases (get_static_edge n b)) [
        | inl e ↦
            let d = static_node (b ∷ s) false (route ∷ []) in
            let (a, o) =
              add_update n b d (syms s) (route ∷ []) v e refl refl (tt, tt, tt, tt)
                (leaf-OnlyAt (b ∷ s) false (route ∷ [])) in
            rw (insert_name_in, e)
              (head-add_static_edge n d, a, o, λ _. get_static_edge-absent n b (syms s) v e)
        | inr ((idx, child), e) ↦
            let (k, u, l, at) = get_static_edge-IsValid n b idx child v e in
            let (t, g) = HeadIs-cons b (key child) k in
            let (p, r1, r2, q1, q2, m, d) = longest_prefix-split s t in
            let step =
              at_child-Inserted (λ c w. insert_name_in f c w route mode) n child idx b p r1 r2 route
                mode v e (g ∙ ap (λ y. b ∷ y) q2)
                (longest_prefix_cons b (p ++ r1) (p ++ r2)
                  ∙ ap suc (sym (ap₂ longest_prefix q1 q2) ∙ m))
                d
                (insert_name_in-Inserted f child r1 route mode
                  (omega (arith, ap length q1, length-append p r1)) u) in
            rw (insert_name_in, e)
              (subst
                (λ y.
                  Inserted n (byte b ∷ syms y) route mode
                    (at_child (λ c w. insert_name_in f c w route mode) n child idx (b ∷ y) route))
                (sym q1) step)
      ]

  -- insertName on a valid tree of names: the new tree holds the route under its name and is
  -- otherwise the same; or, in modeInsert only, the name is taken, and the conflict is the route
  -- that holds it.
  pub insert_name-Inserted :
      (names : Node M) (route : Route M) (mode : InsertMode)
      → IsValid names
      → Inserted names (syms route.name) route mode (insert_name names route mode)
  unfolding insert_name
  insert_name-Inserted names route mode v =
      insert_name_in-Inserted (suc (length route.name)) names route.name route mode (omega arith) v
