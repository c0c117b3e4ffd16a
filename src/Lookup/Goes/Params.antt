-- ===== src/Lookup/Goes/Params.antt =====
-- lookupByPath: where the parameters of a node lead.
use fox.Prelude.{
  ℕ, zero, suc, ◌+◌, ◌-◌, ◌≤◌, ◌<◌, ◌≡◌, ◌≢◌, inl, inr, refl, sym, subst, ap, Bool, true, false,
  ◌&&◌, not, Option, none, some, List, [], ◌∷◌, ◌++◌, ◌==◌, arith, Bytes, take, length,
  Option-cases, Bool-cases, length-drop, length-take, index_byte, append-nil,
}
use fox.Node.{Node, Nodes, nil, cons, node, head, key, params, wildcards, count}
use fox.Node.Content.{IsValid, AreKeyed}
use fox.Lookup.{Library}
use fox.Lookup.State.{
  PathWalk, walk, Try, went, fell, push_if, push_when, skip_node, step_into, drop_nodes, no_nodes,
  record_param,
}
use fox.Lookup.Step.{search_of, is_below, pick_param, segment_end, try_param, try_params}
use fox.Lookup.Texts.{take_append_take}
use fox.Lookup.Trail.{In, first, later, by_param, MayCapture, IsPlain, AreOthers}
use fox.Lookup.Goes.{
  todo, IsReady, IsSooner, AreInOrder, IsKept, Goes, backs, walks, Recorded-append, Grows-record,
}

module _ {M : Type 0} where
  pub In-drop : (k : ℕ) (cs : Nodes M) (c : Node M) → In c (drop_nodes k cs) → In c cs
  In-drop zero cs c m = m
  In-drop (suc k) nil c m = m
  In-drop (suc k) (cons d cs) c m = later (In-drop k cs c m)

  pub count-drop_nodes : (k : ℕ) (cs : Nodes M) → count (drop_nodes k cs) ≡ count cs - k
  count-drop_nodes zero cs = omega arith
  count-drop_nodes (suc k) nil = omega arith
  count-drop_nodes (suc k) (cons d cs) = omega (arith, count-drop_nodes k cs)

  pub count-pos : (cs : Nodes M) → no_nodes cs ≡ false → 1 ≤ count cs
  count-pos nil h = ground arith
  count-pos (cons c cs) h = omega arith

  pub AreKeyed-In : {c : Node M} {cs : Nodes M} → In c cs → AreKeyed cs → IsValid c
  AreKeyed-In first v = v.1
  AreKeyed-In (later m) v = AreKeyed-In m v.2

  pub AreOthers-In :
      {c : Node M} {cs : Nodes M} → In c cs → AreOthers cs → (key c ≢ b'/' ∷ []) × IsPlain c
  AreOthers-In first p = (p.0, p.1)
  AreOthers-In (later m) p = AreOthers-In m p.2

  pub params-IsPlain :
      (n c : Node M) → IsValid n → IsPlain n → In c (params n) → IsValid c × IsPlain c
  params-IsPlain (node h rs st ps ws) c v p m = (AreKeyed-In m v.2, (AreOthers-In m p.1).1)

pub segment_lem :
    (search : Bytes)
    → (segment_end search ≤ length search)
      × (index_byte (take (segment_end search) search) b'/' ≡ none)
unfolding segment_end index_byte
segment_lem [] = (omega arith, refl)
segment_lem (c ∷ search) = elim (Bool-cases (c == b'/')) [
  | inl e ↦ rw (segment_end, index_byte, e) (omega arith, refl)
  | inr e ↦ elim (Option-cases (index_byte search b'/')) [
    | inl f ↦
        let (l, n) = segment_lem search in
        let q : segment_end search ≡ length search = rw (segment_end, f) refl in
        rw (segment_end, index_byte, e, f) (omega arith, rw (e, (rw q at n)) refl)
    | inr (i, f) ↦
        let (l, n) = segment_lem search in
        let q : segment_end search ≡ i = rw (segment_end, f) refl in
        rw (segment_end, index_byte, e, f) (omega (arith, l, q), rw (e, (rw q at n)) refl)
  ]
]

module _ {M E : Type 0} (lib : Library M E) (method : Bytes) (lazy : Bool) where
  pub pick_param_lem :
      (k : ℕ) (ps : Nodes M) (segment : Bytes) (i : ℕ) (p : Node M)
      → pick_param lib method lazy k ps segment ≡ some (i, p)
      → In p ps × (i < k + count ps) × (k ≤ i) × MayCapture lib (head p).regexp segment
  unfolding pick_param
  pick_param_lem k nil segment i p h = ground arith
  pick_param_lem k (cons c cs) segment i p h = elim (Option-cases (head c).regexp) [
    | inl e ↦ taken (subst (λ o. MayCapture lib o segment) (sym e) tt) (rw (pick_param, e) at h)
    | inr (re, e) ↦ elim (Bool-cases (lib.match_string re segment)) [
      | inl t ↦ taken (subst (λ o. MayCapture lib o segment) (sym e) t) (rw (pick_param, e, t) at h)
      | inr t ↦
          let (m, a, b, q) = pick_param_lem (suc k) cs segment i p (rw (pick_param, e, t) at h) in
          (later m, omega (arith, a), omega (arith, b), q)
    ]
  ]
    where
      taken :
          MayCapture lib (head c).regexp segment
          → ◌≡◌ {A = Option (ℕ × Node M)} (some (k, c)) (some (i, p))
          → In p (cons c cs)
            × (i < k + count (cons c cs))
            × (k ≤ i)
            × MayCapture lib (head p).regexp segment
      taken m q =
          let a : c ≡ p = ground (arith, q) in
          let b : k ≡ i = ground (arith, q) in rw (← a, ← b) (first, omega arith, omega arith, m)

  module _ (root : Node M) (path : Bytes) (before : List Bytes) where
    abbrev pub IfParam : PathWalk M E → Try M E → Type 0
    IfParam s (went g) = Goes lib method lazy root path before s g
    IfParam s (fell s') = s' ≡ record s { skip_static = false }

    -- A skip node behind parameters of the same node.
    IsSooner-param :
        (s : PathWalk M E) (a : ℕ)
        → AreInOrder lib method lazy root path before s.matched s.skip_static s.child_param_idx
            s.child_wildcard_idx s.wildcard_offset
        → s.child_param_idx < a
        → s.child_param_idx < count (params s.matched)
        → IsSooner lib method lazy root path before s a 0 0
    IsSooner-param s a (z, o) l k =
        (((λ h. absurd (true-ne h)), (λ h. (refl, refl))), inl (less s.skip_static))
      where
        true-ne : true ≡ false → ⊥
        true-ne h = cc

        less :
            (b : Bool)
            → todo true a 0 s.matched < todo b s.child_param_idx s.child_wildcard_idx s.matched
        less true = let (w, c) = o k in rw w (omega arith)
        less false = let (w, c) = o k in rw w (omega arith)

    push_when-IsKept :
        (t : Bool) (s : PathWalk M E) (a b c : ℕ)
        → IsSooner lib method lazy root path before s a b c
        → IsKept lib method lazy root path before s (push_when t (skip_node s a b c) s.stack)
    push_when-IsKept true s a b c h = inr (a, b, c, refl, h)
    push_when-IsKept false s a b c h = inl refl

    -- The walk goes on behind a segment.
    step_into-param :
        (s : PathWalk M E) (t : Bool) (a : ℕ) (p : Node M) (end : ℕ)
        → IsReady lib method lazy root path before s
        → s.child_param_idx < a
        → s.child_param_idx < count (params s.matched)
        → In p (params s.matched)
        → 1 ≤ end
        → end ≤ length (search_of path s)
        → index_byte (take end (search_of path s)) b'/' ≡ none
        → MayCapture lib (head p).regexp (take end (search_of path s))
        → Goes lib method lazy root path before s (
            walk
              (record (step_into
                (push_if t (record s { skip_static = false }) (skip_node s a 0 0))
                p
                end
                (record_param lazy s.captured (take end (search_of path s)))) {
                  child_param_idx = 0;
                }))
    step_into-param s t a p end ((vs, tl, rc, k, v, pl), o) l i m e1 e2 n q =
        let (vp, pp) = params-IsPlain s.matched p v pl m in
        let (w, c) = o.1 i in
        walks
          (record (step_into (push_if t (record s { skip_static = false }) (skip_node s a 0 0)) p
            end (record_param lazy s.captured (take end (search_of path s)))) {
              child_param_idx = 0;
            })
          (push_when-IsKept t s a 0 0 (IsSooner-param s a o l i))
          (Grows-record lazy s.captured (take end (search_of path s)))
          (
            (
              vs ++ take end (search_of path s) ∷ [],
              rw (← take_append_take s.chars_matched end path) (by_param tl m filled n q),
              Recorded-append lazy before vs s.captured (take end (search_of path s)) rc,
              omega (arith, e2, length-drop s.chars_matched path, k),
              vp,
              pp,
            ),
            ((λ h. (refl, w, c)), (λ h. (w, c))),
          )
          (omega arith)
      where
        filled : take end (search_of path s) ≢ []
        filled h = absurd (omega (arith, length-take end (search_of path s), ap length h, e1, e2))

    try_param-IfParam :
        (s : PathWalk M E)
        → IsReady lib method lazy root path before s
        → s.child_param_idx < count (params s.matched)
        → IfParam s (
            try_param lib method lazy
              (record s { skip_static = false })
              (drop_nodes s.child_param_idx (params s.matched))
              (search_of path s))
    unfolding try_param
    try_param-IfParam s r i = elim (Bool-cases (segment_end (search_of path s) == 0)) [
      | inl e ↦
          rw (try_param, e)
            (backs
              (push_if (not (no_nodes (wildcards s.matched))) (record s { skip_static = false })
                (skip_node s (count (params s.matched)) 0 0))
              (push_when-IsKept (not (no_nodes (wildcards s.matched))) s (count (params s.matched))
                0 0 (IsSooner-param s (count (params s.matched)) r.1 i i))
              ([], sym (append-nil s.captured)) r.0)
      | inr e ↦
          elim (Option-cases (
            pick_param lib method lazy 0 (drop_nodes s.child_param_idx (params s.matched))
              (take (segment_end (search_of path s)) (search_of path s)))) [
                | inl f ↦ rw (try_param, e, f) refl
                | inr ((j, p), f) ↦
                    let (m, u, z, q) =
                      pick_param_lem 0 (drop_nodes s.child_param_idx (params s.matched))
                        (take (segment_end (search_of path s)) (search_of path s)) j p f in
                    let (l, n) = segment_lem (search_of path s) in
                    rw (try_param, e, f)
                      (step_into-param s _ (j + 1 + s.child_param_idx) p
                        (segment_end (search_of path s)) r (omega arith) i
                        (In-drop s.child_param_idx (params s.matched) p m) (ground (arith, e)) l n
                        q)
              ]
    ]

    pub try_params-IfParam :
        (s : PathWalk M E)
        → IsReady lib method lazy root path before s
        → IfParam s (try_params lib method lazy root path s)
    unfolding try_params
    try_params-IfParam s r =
        elim (Bool-cases (
          not (no_nodes (drop_nodes s.child_param_idx (params s.matched)))
          && is_below lib root s)) [
            | inr e ↦ rw (try_params, e) refl
            | inl e ↦
                rw (try_params, e)
                  (try_param-IfParam s r (
                    omega (
                      arith,
                      count-pos (drop_nodes s.child_param_idx (params s.matched))
                          (ground (arith, e)),
                      count-drop_nodes s.child_param_idx (params s.matched),
                    )))
          ]
