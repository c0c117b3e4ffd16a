-- ===== src/Parser/Brace/Text.antt =====
-- What parseBrace reads: the text between balanced braces, cut at its first colon.
use mathlib.Core.Option.{some_inj}
use fox.Prelude.{
  take-length_append, ℕ, suc, ◌+◌, ◌≤◌, ◌<◌, ◌≡◌, refl, sym, ap, ◌∙◌, Bool, true, false, ◌&&◌, ◌||◌,
  Option, none, some, [], ◌∷◌, ◌++◌, ◌==◌, arith, length, take, drop, Bytes, codes, is_empty,
  has_prefix, index_byte, inl, inr, Bool-cases, Option-cases, ==_iff, length-take, length-drop,
  length-append, append_assoc, append-nil,
}
use fox.Tree.Insert.{raw_expr}
use fox.Parser.{shift, Limits, Library, parsed, ◌>>=◌, is_ascii_control}
use fox.Parser.Brace.{
  brace_index, next_level, index_of, anchored, compile_param_regexp, check_name, is_illegal,
  check_regexp, brace_content, parse_brace,
}
use fox.Parser.Outcome.{
  Ends, holds, refused, Within, Ends-reject, Ends-bind, Ends-error, Ends-weaken, Ends-map,
}

brace_join : (name e d : Bytes) → (name ++ e) ++ (b'}' ∷ d) ≡ (name ++ (e ++ b'}' ∷ [])) ++ d
brace_join name e d = rw (append_assoc, append_assoc, append_assoc) refl

-- A parameter as it is written.
abbrev pub expr_text : Option Bytes → Bytes
expr_text none = []
expr_text (some re) = b':' ∷ raw_expr re

abbrev pub brace_text : Bytes → Option Bytes → Bytes
brace_text name re = b'{' ∷ (name ++ (expr_text re ++ b'}' ∷ []))

abbrev pub IsName : ℕ → Bytes → Type 0
IsName max name = (is_empty name ≡ false) × (length name ≤ max)

-- What is read of the text behind an opening brace.
abbrev pub Reads : ℕ → Bytes → Bytes × Option Bytes × ℕ → Type 0
Reads max t (name, re, n) =
    (b'{' ∷ t ≡ brace_text name re ++ drop n (b'{' ∷ t))
    × (0 < n)
    × (n ≤ suc (length t))
    × IsName max name

-- The text around an index.
pub brace_index-some :
    (s : Bytes) (level i : ℕ)
    → brace_index s level ≡ some i
    → (s ≡ take i s ++ b'}' ∷ drop (suc i) s) × (i < length s)
unfolding brace_index
brace_index-some [] level i h = ground (arith, h)
brace_index-some (c ∷ s) level i h = elim (Bool-cases (c == b'}' && level == 1)) [
  | inl e ↦
      let z : i ≡ 0 = ground (arith, (rw (brace_index, e) at h)) in
      let q : c ≡ b'}' = ground (arith, e) in rw (z, q) (refl, omega arith)
  | inr e ↦ elim (Option-cases (brace_index s (next_level c level))) [
    | inl f ↦ ground (arith, (rw (brace_index, e, f) at h))
    | inr (j, f) ↦
        let z : i ≡ suc j = ground (arith, (rw (brace_index, e, f) at h)) in
        let (p, l) = brace_index-some s (next_level c level) j f in
        rw z (ap (λ r. c ∷ r) p, omega arith)
  ]
]

pub index_byte-some :
    (s : Bytes) (c i : ℕ)
    → index_byte s c ≡ some i
    → (s ≡ take i s ++ c ∷ drop (suc i) s) × (i < length s)
unfolding index_byte
index_byte-some [] c i h = ground (arith, h)
index_byte-some (x ∷ s) c i h = elim (Bool-cases (x == c)) [
  | inl e ↦
      let z : i ≡ 0 = ground (arith, (rw (index_byte, e) at h)) in
      rw (z, (==_iff x c).0 e) (refl, omega arith)
  | inr e ↦ elim (Option-cases (index_byte s c)) [
    | inl f ↦ ground (arith, (rw (index_byte, e, f) at h))
    | inr (j, f) ↦
        let z : i ≡ suc j = ground (arith, (rw (index_byte, e, f) at h)) in
        let (p, l) = index_byte-some s c j f in rw z (ap (λ r. x ∷ r) p, omega arith)
  ]
]

index_of-some : (f : ℕ → Bool) (s : Bytes) (j c : ℕ) → index_of f s ≡ some (j, c) → j < length s
unfolding index_of
index_of-some f [] j c h = ground (arith, h)
index_of-some f (x ∷ s) j c h = elim (Bool-cases (f x)) [
  | inl e ↦ let z : j ≡ 0 = ground (arith, (rw (index_of, e) at h)) in omega (arith, z)
  | inr e ↦ elim (Option-cases (index_of f s)) [
    | inl g ↦ ground (arith, (rw (index_of, e, g) at h))
    | inr ((k, d), g) ↦
        let z : j ≡ suc k = ground (arith, (rw (index_of, e, g) at h)) in
        omega (arith, z, index_of-some f s k d g)
  ]
]

front : (raw tail : Bytes) (m : ℕ) → m ≡ length raw → take m (raw ++ tail) ≡ raw
front raw tail m e = rw e (take-length_append raw tail)

-- The expression is found again in what is compiled.
raw_expr-anchored : (raw : Bytes) (ic : Bool) → raw_expr (anchored raw ic) ≡ raw
unfolding raw_expr anchored has_prefix
raw_expr-anchored raw true =
    front raw (codes ")$") _ (omega (arith, length-append raw (codes ")$")))
raw_expr-anchored raw false =
    front raw (codes ")$") _ (omega (arith, length-append raw (codes ")$")))

module _ (lib : Library) (limits : Limits) where
  compile-Ends :
      (raw : Bytes) (ic : Bool)
      → Ends
          (λ re. raw_expr re ≡ raw)
          (Within (length raw))
          (compile_param_regexp lib limits raw ic)
  unfolding compile_param_regexp
  compile-Ends raw ic = Ends-bind (Ends-reject _ _ (λ _. (omega arith, omega arith))) (λ _ _.
      Ends-bind (Ends-reject _ _ (λ _. (omega arith, omega arith))) (λ _ _.
        elim (Option-cases (lib.parse raw)) [
          | inl e ↦ rw e (refused (omega arith, omega arith))
          | inr (re, e) ↦ rw e (
              Ends-bind (Ends-reject _ _ (λ _. (omega arith, omega arith))) (λ _ _.
                Ends-bind (Ends-reject _ _ (λ _. (omega arith, omega arith))) (λ _ _.
                  Ends-bind (Ends-reject _ _ (λ _. (omega arith, omega arith)))
                    (λ _ _. holds (raw_expr-anchored raw ic)))))
        ]))

check_name-Ends :
    (delim : ℕ) (name : Bytes)
    → Ends (λ _. Unit {0}) (Within (1 + length name)) (check_name delim name)
unfolding check_name
check_name-Ends delim name =
    elim (Option-cases (index_of (λ c. is_ascii_control c || is_illegal delim c) name)) [
      | inl e ↦ rw (check_name, e) (holds tt)
      | inr ((j, c), e) ↦
          let l = index_of-some _ name j c e in
          elim (Bool-cases (is_ascii_control c)) [
            | inl f ↦ rw (check_name, e, f) (refused (omega (arith, l), omega (arith, l)))
            | inr f ↦ rw (check_name, e, f) (refused (omega (arith, l), omega (arith, l)))
          ]
    ]

module _ (lib : Library) (limits : Limits) where
  check_regexp-Ends :
      (delim colon : ℕ) (raw : Bytes) (opt : Bool) (consumed : ℕ)
      → colon + length raw + 3 ≤ consumed
      → Ends
          (λ re. expr_text re ≡ b':' ∷ raw)
          (Within consumed)
          (check_regexp lib limits delim colon raw opt consumed)
  unfolding check_regexp
  check_regexp-Ends delim colon raw opt consumed h =
      Ends-bind (Ends-reject _ _ (λ _. (omega arith, omega arith))) (λ _ _.
        elim (Option-cases (index_of is_ascii_control raw)) [
          | inr ((j, c), e) ↦
              let l = index_of-some _ raw j c e in
              rw e (refused (omega (arith, l), omega (arith, l)))
          | inl e ↦ rw e (
              Ends-bind
                (Ends-error {S = Within consumed} (shift (1 + colon + 1))
                  (compile-Ends lib limits raw (delim == b'.'))
                  (λ e (p, q). (omega (arith, p), omega (arith, q))))
                (λ re q. holds (ap (λ r. b':' ∷ r) q)))
        ])

  brace_content-Ends :
      (delim : ℕ) (content name : Bytes) (colon : Option ℕ) (opt : Bool) (consumed : ℕ)
      → length content + 2 ≤ consumed
      → length name ≤ length content
      → (colon ≡ none → content ≡ name)
      → ((ci : ℕ)
          → colon ≡ some ci
          → (content ≡ name ++ b':' ∷ drop (suc ci) content) × (ci < length content))
      → Ends
          (λ re. (content ≡ name ++ expr_text re) × IsName limits.max_param_key_bytes name)
          (Within consumed)
          (brace_content lib limits delim content name colon opt consumed)
  unfolding brace_content
  brace_content-Ends delim content name colon opt consumed h k f g =
      Ends-bind (Ends-reject _ _ (λ _. (omega arith, omega arith))) (λ _ long.
        Ends-bind (Ends-reject _ _ (λ _. (omega arith, omega arith))) (λ _ empty.
          let short : length name ≤ limits.max_param_key_bytes = ground (arith, long) in
          Ends-bind (Ends-weaken (check_name-Ends delim name) (λ e (p, q). (p, omega (arith, q))))
            (λ _ _. elim (Option-cases colon) [
              | inl e ↦ rw e (holds (f e ∙ sym (append-nil name), (empty, short)))
              | inr (ci, e) ↦
                  let (p, l) = g ci e in
                  rw e (
                    Ends-map
                      (check_regexp-Ends delim ci (drop (suc ci) content) opt consumed
                        (omega (arith, length-drop (suc ci) content)))
                      (λ re q. (rw q p, (empty, short))))
            ])))

  parse_brace-at :
      (t name : Bytes) (i delim : ℕ) (colon : Option ℕ) (opt : Bool)
      → (t ≡ take i t ++ b'}' ∷ drop (suc i) t) × (i < length t)
      → length name ≤ length (take i t)
      → (colon ≡ none → take i t ≡ name)
      → ((ci : ℕ)
          → colon ≡ some ci
          → (take i t ≡ name ++ b':' ∷ drop (suc ci) (take i t)) × (ci < length (take i t)))
      → Ends (Reads limits.max_param_key_bytes t) (Within (suc (length t))) (
          brace_content lib limits delim (take i t) name colon opt (1 + i + 1) >>= λ re.
          parsed (name, re, 1 + i + 1))
  parse_brace-at t name i delim colon opt (p, l) k f g =
      let two : 1 + i + 1 ≡ suc (suc i) = omega arith in
      let m = length-take i t in
      Ends-bind
        (Ends-weaken
          (brace_content-Ends delim (take i t) name colon opt (1 + i + 1) (omega (arith, m, l)) k f
            g)
          (λ e (a, b). (a, omega (arith, b, l))))
        (λ re (q, nm). holds (
          rw two (
              ap (λ r. b'{' ∷ r)
                (p
                  ∙ (ap (λ r. r ++ b'}' ∷ drop (suc i) t) q
                      ∙ brace_join name (expr_text re) (drop (suc i) t)))),
          omega arith,
          omega (arith, l),
          nm,
        ))

  -- parseBrace, on a text that begins with a brace, returns a name and an expression that print as
  -- what it read, with at least one byte read and a name in bounds, or an error whose positions are
  -- within the text.
  pub parse_brace-Ends :
      (t : Bytes) (delim : ℕ) (opt : Bool)
      → Ends
          (Reads limits.max_param_key_bytes t)
          (Within (suc (length t)))
          (parse_brace lib limits (b'{' ∷ t) delim opt)
  unfolding parse_brace
  parse_brace-Ends t delim opt = elim (Option-cases (brace_index t 1)) [
    | inl e ↦ rw (parse_brace, e) (refused (omega arith, omega arith))
    | inr (i, e) ↦
        rw (parse_brace, e)
          (elim (Option-cases (index_byte (take i t) b':')) [
            | inl f ↦ rw f (
                parse_brace-at t (take i t) i delim none opt (brace_index-some t 1 i e)
                  (omega arith) (λ _. refl) (λ _ q. cc))
            | inr (ci, f) ↦ rw f (
                parse_brace-at t (take ci (take i t)) i delim (some ci) opt
                  (brace_index-some t 1 i e) (omega (arith, length-take ci (take i t)))
                  (λ x. ground (arith, x))
                  (λ cj x. rw (sym (some_inj.0 x)) (index_byte-some (take i t) b':' ci f)))
          ])
  ]
