-- ===== src/Parser/Pattern/Sound.antt =====
-- parsePattern: what it ends in, on every pattern.
use fox.Prelude.{
  ℕ, zero, suc, ◌≤◌, ◌<◌, ◌≡◌, ◌≢◌, refl, sym, ap, ◌∙◌, Bool, true, false, List, [], ◌∷◌, ◌++◌,
  arith, length, take, drop, Bytes, ltb, is_empty, index_byte, inl, inr, Bool-cases, Option-cases,
  length-take, length-drop, take-append-drop,
}
use fox.Route.{Token, Pattern}
use fox.Parser.{Limits, Library, Parse}
use fox.Parser.Outcome.{Ends, holds, refused, Within}
use fox.Parser.Brace.Text.{index_byte-some}
use fox.Parser.Tokens.{show_tokens, show_tokens-append, params, params-append}
use fox.Parser.Path.Loop.{ReadsPath, HasRunes, parse_path-Ends}
use fox.Parser.Hostname.Loop.{ReadsHost, parse_hostname-Ends}
use fox.Parser.Pattern.{
  invalid_route, pattern_error, no_fuel, Parsed, pattern, rejected, with_path, with_host,
  parse_rest, parse_pattern,
}

-- A pattern prints as the text. Its tokens are those of the hostname, before the first slash, and
-- those of the path.
abbrev pub IsPattern : Limits → Bytes → Pattern → ℕ → Type 0
IsPattern limits raw p count =
    (p.str ≡ raw)
    × (show_tokens p.optional_catch_all p.tokens ≡ raw)
    × (count ≡ params p.tokens)
    × (count ≤ limits.max_params)
    × (p.end_host < length raw)
    × ((host path : List Token) × (p.tokens ≡ host ++ path)
        × ReadsHost limits (take p.end_host raw) (host, p.host_params)
        × ReadsPath limits (drop p.end_host raw) p.host_params (path, p.optional_catch_all, count))

-- An error has a place in the text, unless there is no text.
abbrev pub Answers : Limits → Bytes → Parsed → Type 0
Answers limits raw (pattern p count) = IsPattern limits raw p count
Answers limits raw (rejected invalid_route) = raw ≡ []
Answers limits raw (rejected (pattern_error part e)) = Within (length raw) e
Answers limits raw (rejected no_fuel) = ⊥

shown-nonempty :
    (opt : Bool) (ts : List Token) (s : Bytes) → show_tokens opt ts ≡ s → 0 < length s → ts ≢ []
shown-nonempty opt ts s e h k = omega (arith, h, ap length (sym e ∙ ap (show_tokens opt) k))

empty-nil : (s : Bytes) → is_empty s ≡ true → s ≡ []
empty-nil [] h = refl
empty-nil (c ∷ s) h = ground (arith, h)

no_host :
    (limits : Limits) (raw : Bytes) (i : ℕ)
    → ltb 0 i ≡ false
    → ReadsHost limits (take i raw) ([], 0)
no_host limits raw zero h = (refl, tt, refl, omega arith)
no_host limits raw (suc i) h = ground (arith, h)

module _ (lib : Library) (limits : Limits) (runes : HasRunes lib) (raw : Bytes) where
  module _ (end_host : ℕ) (l : end_host < length raw) where
    with_path-Answers :
        (host : List Token × ℕ) (r : Parse (List Token × Bool × ℕ))
        → ReadsHost limits (take end_host raw) host
        → Ends (ReadsPath limits (drop end_host raw) host.1) (Within (length (drop end_host raw))) r
        → Answers limits raw (with_path raw end_host host r)
    with_path-Answers (tokens, n) r h (refused {e} (p, q)) =
        (omega (arith, p), omega (arith, q, length-drop end_host raw, l))
    with_path-Answers (tokens, n) r h (holds {a} k) =
        let some_token : a.0 ≢ [] =
          shown-nonempty a.1 a.0 (drop end_host raw) k.0
            (omega (arith, length-drop end_host raw, l)) in
        (
          refl,
          show_tokens-append a.1 tokens a.0 some_token
              ∙ (rw (h.0, k.0) (take-append-drop end_host raw)),
          omega (arith, k.2, h.2, params-append tokens a.0),
          k.3,
          l,
          (tokens, a.0, refl, h, k),
        )

    rest-Answers :
        (host : List Token × ℕ)
        → ReadsHost limits (take end_host raw) host
        → Answers limits raw (parse_rest lib limits raw end_host host)
    unfolding parse_rest
    rest-Answers (tokens, n) h =
        with_path-Answers (tokens, n) _ h
          (parse_path-Ends lib limits (drop end_host raw) n runes h.3)

    host-Answers :
        (r : Parse (List Token × ℕ))
        → Ends (ReadsHost limits (take end_host raw)) (Within (length (take end_host raw))) r
        → Answers limits raw (with_host (parse_rest lib limits raw end_host) r)
    host-Answers r (holds {a} h) = rest-Answers a h
    host-Answers r (refused (p, q)) = (p, omega (arith, q, length-take end_host raw, l))

  -- Where a rune is not longer than the text it begins: parsePattern returns a pattern whose tokens
  -- print as the pattern, split between the hostname and the path, whose literal texts are in the form
  -- that is matched, whose names are in bounds and whose parameters are counted and in bounds; or an
  -- error whose positions are within the pattern; or ErrInvalidRoute, for the empty pattern only. The
  -- fuel never runs out.
  pub parse_pattern-Answers : Answers limits raw (parse_pattern lib limits raw)
  unfolding parse_pattern
  parse_pattern-Answers = elim (Option-cases (index_byte raw b'/')) [
    | inl e ↦ elim (Bool-cases (is_empty raw)) [
      | inl f ↦ rw (parse_pattern, e, f) (empty-nil raw f)
      | inr f ↦ rw (parse_pattern, e, f) (omega arith, omega arith)
    ]
    | inr (i, e) ↦
        let (_, l) = index_byte-some raw b'/' i e in
        elim (Bool-cases (ltb 0 i)) [
          | inl f ↦
              rw (parse_pattern, e, f)
                (host-Answers i l _ (parse_hostname-Ends lib limits (take i raw)))
          | inr f ↦ rw (parse_pattern, e, f) (rest-Answers i l ([], 0) (no_host limits raw i f))
        ]
  ]
