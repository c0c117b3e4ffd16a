-- ===== src/Routing/Redirect.antt =====
-- redirectRoutingPath, against normalizeRoutingPath and what the passes change.
use fox.Prelude.{
  ℕ, ◌<◌, ◌≡◌, ◌≢◌, ◌↔◌, ◌⊎◌, refl, sym, subst, ap, ◌∙◌, Bool, true, false, ◌&&◌, ◌||◌, not, Option,
  none, some, List, [], ◌∷◌, ◌==◌, if◌then◌else◌, arith, length, Bytes, inl, inr, Bool-cases,
}
use fox.Parser.{NormalizeOption}
use fox.Parser.Path.{is_exact}
use fox.UrlPath.{merge_slashes}
use fox.UrlPath.Merge.{squeeze, squeeze_after, merge_slashes-squeeze}
use fox.UrlPath.Dots.{Collapsed, collapsed, above_root, no_fuel, collapse_dot_segments}
use fox.UrlPath.Dots.Loop.{answer}
use fox.UrlPath.Dots.Index.{collapse_dot_segments-resolve}
use fox.UrlPath.Dots.Clean.{collapse_dot_segments-IsClean}
use fox.Routing.{
  Modes, is_redirect, normalize_routing_path, Redirected, redirected, rejected, unfinished,
  redirect_collapsed, redirect_routing_path,
}

squeeze_after-length :
    (prev : ℕ) (s : Bytes) → (squeeze_after prev s ≡ s) ⊎ (length (squeeze_after prev s) < length s)
unfolding squeeze_after
squeeze_after-length prev [] = inl refl
squeeze_after-length prev (c ∷ s) = elim (Bool-cases (c == b'/' && prev == b'/')) [
  | inl e ↦
      rw (squeeze_after, e)
        (elim (squeeze_after-length c s) [
          | inl q ↦ inr (omega (arith, ap length q))
          | inr q ↦ inr (omega (arith, q))
        ])
  | inr e ↦
      rw (squeeze_after, e)
        (elim (squeeze_after-length c s) [
          | inl q ↦ inl (ap (λ r. c ∷ r) q)
          | inr q ↦ inr (omega (arith, q))
        ])
]

-- The merged path begins with the same byte, and is the path unless it is shorter.
merge-length :
    (c : ℕ) (s : Bytes)
    → (t : Bytes) × (merge_slashes (c ∷ s) ≡ c ∷ t) × ((t ≡ s) ⊎ (length t < length s))
merge-length c s = (
  squeeze_after c s,
  merge_slashes-squeeze (c ∷ s) ∙ unfold squeeze in refl,
  squeeze_after-length c s,
)

-- A change shows in the length.
changed :
    (p path : Bytes) (b : Bool)
    → (p ≡ path) ⊎ (length p < length path)
    → ((not (length p == length path) && b) ≡ true) ↔ ((b ≡ true) × (p ≢ path))
changed p path b h = (
  (λ e. (ground (arith, e), λ q. ground (arith, ap length q, e))),
  (λ (e, n). elim h [ inl q ↦ absurd (n q) | inr q ↦ ground (arith, e, q) ]),
)

or_iff : {A : Type 0} (r b : Bool) → (b ≡ true) ↔ A → ((r || b) ≡ true) ↔ ((r ≡ true) ⊎ A)
or_iff true b f = ((λ _. inl refl), (λ _. refl))
or_iff false b f = ((λ e. inr (f.0 e)), (λ q. elim q [ inl e ↦ ground (arith, e) | inr a ↦ f.1 a ]))

-- The paths behind each pass.
abbrev pub merged : Modes → Bytes → Bytes
merged modes path = if not (is_exact modes.merge_slash) then merge_slashes path else path

abbrev second : NormalizeOption → Bytes → Collapsed
second opt path = if not (is_exact opt) then collapse_dot_segments path else collapsed path

-- What the second pass answers, on the path and the flag of the first.
abbrev Seconds : NormalizeOption → Bytes → Bool → Redirected → Type 0
Seconds opt path r (redirected p b) =
    (second opt path ≡ collapsed p)
    × ((b ≡ true) ↔ ((r ≡ true) ⊎ ((is_redirect opt ≡ true) × (p ≢ path))))
Seconds opt path r rejected = second opt path ≡ above_root
Seconds opt path r unfinished = ⊥

answer-fuel : (o : Option (List Bytes)) → answer o ≢ no_fuel
answer-fuel none e = ground (arith, e)
answer-fuel (some stack) e = ground (arith, e)

collapse-Seconds :
    (opt : NormalizeOption) (t : Bytes) (r : Bool) (c : Collapsed)
    → is_exact opt ≡ false
    → collapse_dot_segments (b'/' ∷ t) ≡ c
    → Seconds opt (b'/' ∷ t) r (redirect_collapsed opt (b'/' ∷ t) r)
unfolding redirect_collapsed
collapse-Seconds opt t r (collapsed p) x e =
    rw (redirect_collapsed, x, e)
      (
        rw (x, e) refl,
        or_iff r _ (changed p (b'/' ∷ t) (is_redirect opt) (collapse_dot_segments-IsClean t p e).3),
      )
collapse-Seconds opt t r above_root x e = rw (redirect_collapsed, x, e) (rw (x, e) refl)
collapse-Seconds opt t r no_fuel x e =
    absurd (answer-fuel _ (sym (collapse_dot_segments-resolve t) ∙ e))

exact-Seconds :
    (opt : NormalizeOption) (path : Bytes) (r : Bool)
    → is_exact opt ≡ true
    → Seconds opt path r (redirect_collapsed opt path r)
unfolding redirect_collapsed
exact-Seconds opt path r x =
    rw (redirect_collapsed, x)
      (rw x refl, ((λ e. inl e), (λ q. elim q [ inl e ↦ e | inr (_, n) ↦ absurd (n refl) ])))

second-Seconds :
    (opt : NormalizeOption) (t : Bytes) (r : Bool)
    → Seconds opt (b'/' ∷ t) r (redirect_collapsed opt (b'/' ∷ t) r)
second-Seconds opt t r = elim (Bool-cases (is_exact opt)) [
  | inl x ↦ exact-Seconds opt (b'/' ∷ t) r x
  | inr x ↦ collapse-Seconds opt t r _ x refl
]

-- A pass in the redirecting mode changes the path.
abbrev pub Redirects : Modes → Bytes → Bytes → Type 0
Redirects modes path p =
    ((is_redirect modes.merge_slash ≡ true) × (merged modes path ≢ path))
    ⊎ ((is_redirect modes.collapse_dots ≡ true) × (p ≢ merged modes path))

abbrev pub Agrees : Modes → Bytes → Redirected → Type 0
Agrees modes path (redirected p b) =
    (normalize_routing_path modes path ≡ collapsed p) × ((b ≡ true) ↔ Redirects modes path p)
Agrees modes path rejected = normalize_routing_path modes path ≡ above_root
Agrees modes path unfinished = ⊥

-- From the second pass, on `m`, to both.
Seconds-Agrees :
    (modes : Modes) (path m : Bytes) (r : Bool) (a : Redirected)
    → merged modes path ≡ m
    → (r ≡ true) ↔ ((is_redirect modes.merge_slash ≡ true) × (m ≢ path))
    → Seconds modes.collapse_dots m r a
    → Agrees modes path a
unfolding normalize_routing_path
Seconds-Agrees modes path m r (redirected p b) k f (e, g) = (
  ap (second modes.collapse_dots) k ∙ e,
  (
    (λ h. elim (g.0 h) [ inl q ↦ inl ((f.0 q).0, rw k (f.0 q).1) | inr (q, n) ↦ inr (q, rw k n) ]),
    (λ h.
        g.1
          (elim h [ inl (q, n) ↦ inl (f.1 (q, (rw k at n))) | inr (q, n) ↦ inr (q, (rw k at n)) ])),
  ),
)
Seconds-Agrees modes path m r rejected k f e = ap (second modes.collapse_dots) k ∙ e
Seconds-Agrees modes path m r unfinished k f e = e

merged-redirect :
    (modes : Modes) (path m : Bytes)
    → is_exact modes.merge_slash ≡ false
    → merge_slashes path ≡ m
    → redirect_routing_path modes path
      ≡ redirect_collapsed modes.collapse_dots m
          (not (length m == length path) && is_redirect modes.merge_slash)
unfolding redirect_routing_path
merged-redirect modes path m x e =
    rw (redirect_routing_path, x)
      (ap
        (λ p.
          redirect_collapsed modes.collapse_dots p
            (not (length p == length path) && is_redirect modes.merge_slash))
        e)

exact-redirect :
    (modes : Modes) (path : Bytes)
    → is_exact modes.merge_slash ≡ true
    → redirect_routing_path modes path ≡ redirect_collapsed modes.collapse_dots path false
unfolding redirect_routing_path
exact-redirect modes path x = rw (redirect_routing_path, x) refl

-- On a path that begins with a slash, redirectRoutingPath answers the path of normalizeRoutingPath, or
-- rejects as it does; and it redirects exactly if a pass in RedirectPath mode changed the path,
-- although it compares the lengths only.
pub redirect_routing_path-Agrees :
    (modes : Modes) (s : Bytes) → Agrees modes (b'/' ∷ s) (redirect_routing_path modes (b'/' ∷ s))
redirect_routing_path-Agrees modes s = elim (Bool-cases (is_exact modes.merge_slash)) [
  | inl x ↦ subst (Agrees modes (b'/' ∷ s)) (sym (exact-redirect modes (b'/' ∷ s) x)) (
      Seconds-Agrees modes (b'/' ∷ s) (b'/' ∷ s) false _ (rw x refl)
        ((λ h. ground (arith, h)), (λ (_, n). absurd (n refl)))
        (second-Seconds modes.collapse_dots s false))
  | inr x ↦
      let (t, m, h) = merge-length b'/' s in
      let flag : Bool =
        not (length (b'/' ∷ t) == length (b'/' ∷ s)) && is_redirect modes.merge_slash in
      subst (Agrees modes (b'/' ∷ s)) (sym (merged-redirect modes (b'/' ∷ s) (b'/' ∷ t) x m)) (
        Seconds-Agrees modes (b'/' ∷ s) (b'/' ∷ t) flag _ (rw x m)
          (changed (b'/' ∷ t) (b'/' ∷ s) (is_redirect modes.merge_slash)
            (elim h [ inl q ↦ inl (ap (λ r. b'/' ∷ r) q) | inr q ↦ inr (omega (arith, q)) ]))
          (second-Seconds modes.collapse_dots t flag))
]
