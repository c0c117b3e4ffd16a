-- ===== src/Parser/Reading.antt =====
-- What the loops of parseHostname and parsePath keep: the tokens made, the buffer and the rest of
-- the text are the text, and what is asked of the tokens. `ok` is what is asked of a literal text.
use fox.Prelude.{
  ℕ, suc, ◌+◌, ◌≤◌, ◌<◌, ◌≡◌, refl, sym, ap, ◌∙◌, Bool, true, false, ◌&&◌, ◌||◌, Option, List, [],
  ◌∷◌, ◌++◌, arith, length, drop, Bytes, ltb, All, All-append, inl, inr, Bool-cases, length-drop,
  length-append, append_assoc, append-nil,
}
use fox.Route.{Token}
use fox.Parser.{Limits, flush, brace_token}
use fox.Parser.Brace.Text.{brace_text, Reads}
use fox.Parser.Tokens.{
  show_tokens, show_tokens-flush, show_tokens-brace, brace-IsToken, params-brace, brace-whole, mark,
  params, params-flush, IsToken, flush-IsToken,
}

pub record Reading (ok : Bytes → Bool) (limits : Limits) (source : Bytes) (start : ℕ) (opt : Bool)
    (pos : ℕ) (rest buf : Bytes) (tokens : List Token) (count : ℕ) : Type 0 where
  pub whole : show_tokens opt tokens ++ (buf ++ rest) ≡ source
  pub place : pos + length rest ≡ length source
  pub last : opt ≡ true → (rest ≡ []) × (buf ≡ [])
  pub literal : ok buf ≡ true
  pub made : All (IsToken ok limits.max_param_key_bytes) tokens
  pub counted : count ≡ start + params tokens
  pub bound : count ≤ limits.max_params

-- What is read in the end.
abbrev pub IsRead : (Bytes → Bool) → Limits → Bytes → ℕ → Bool → List Token → ℕ → Type 0
IsRead ok limits source start opt tokens count =
    (show_tokens opt tokens ≡ source)
    × All (IsToken ok limits.max_param_key_bytes) tokens
    × (count ≡ start + params tokens)
    × (count ≤ limits.max_params)

only_suffix : (b : Bool) (rest : Bytes) → (b && ltb 0 (length rest)) ≡ false → b ≡ true → rest ≡ []
only_suffix b [] h k = refl
only_suffix b (x ∷ rest) h k = ground (arith, (rw k at h))

module _ (ok : Bytes → Bool) (limits : Limits) (source : Bytes) (start : ℕ)
    (empty : ok [] ≡ true) where
  pub Reading-start :
      start ≤ limits.max_params → Reading ok limits source start false 0 source [] [] start
  Reading-start h = record {
    whole = refl;
    place = omega arith;
    last = λ q. ground (arith, q);
    literal = empty;
    made = tt;
    counted = omega arith;
    bound = h;
  }

  module _ {pos : ℕ} {rest buf : Bytes} {tokens : List Token} {count : ℕ} where
    -- Bytes move from the text to the buffer.
    pub Reading-write :
        {opt : Bool} (a rest' : Bytes)
        → ((x y : Bytes) → ok x ≡ true → ok y ≡ true → ok (x ++ y) ≡ true)
        → Reading ok limits source start opt pos rest buf tokens count
        → rest ≡ a ++ rest'
        → opt ≡ false
        → ok a ≡ true
        → Reading ok limits source start opt (pos + length a) rest' (buf ++ a) tokens count
    Reading-write a rest' both inv r o h = record {
      whole = rw (append_assoc, sym r) inv.whole;
      place = omega (arith, inv.place, ap length r, length-append a rest');
      last = λ q. ground (arith, sym o ∙ q);
      literal = both buf a inv.literal h;
      made = inv.made;
      counted = inv.counted;
      bound = inv.bound;
    }

    -- A parameter is read.
    pub Reading-brace :
        {opt : Bool} (t name : Bytes) (re : Option Bytes) (i n : ℕ)
        (is_wild is_opt saw_wild hsplit : Bool)
        → Reading ok limits source start opt pos rest buf tokens count
        → rest ≡ mark is_wild is_opt ++ b'{' ∷ t
        → opt ≡ false
        → i ≡ pos + length (mark is_wild is_opt)
        → Reads limits.max_param_key_bytes t (name, re, n)
        → ltb limits.max_params (count + 1) ≡ false
        → (is_opt && ltb 0 (length (drop n (b'{' ∷ t)))) ≡ false
        → Reading ok limits source start
            (opt || is_opt)
            (i + n)
            (drop n (b'{' ∷ t))
            []
            (flush tokens buf hsplit ++ (brace_token is_wild name re saw_wild) ∷ [])
            (count + 1)
          × (length (drop n (b'{' ∷ t)) < length rest)
    Reading-brace t name re i n is_wild is_opt saw_wild hsplit inv r shut e
          (text, pos, len, name_ok) p q =
        let rest' : Bytes = drop n (b'{' ∷ t) in
        let l : i + suc (length t) ≡ length source =
          omega
            (arith, inv.place, ap length r, length-append (mark is_wild is_opt) (b'{' ∷ t), e) in
        let d = length-drop n (b'{' ∷ t) in
        let w = rw shut at inv.whole in
        (
          record {
            whole =
                rw (shut, show_tokens-brace name re saw_wild tokens buf hsplit is_wild is_opt)
                  (brace-whole (show_tokens false tokens) buf (mark is_wild is_opt)
                    (brace_text name re) rest' rest source _ w r text);
            place = omega (arith, d, l, len);
            last = λ o. (only_suffix is_opt rest' q (sym (ap (λ b. b || is_opt) shut) ∙ o), refl);
            literal = empty;
            made =
                All-append (IsToken ok limits.max_param_key_bytes) _ _
                  (flush-IsToken ok _ tokens buf hsplit inv.made inv.literal)
                  (brace-IsToken name re saw_wild ok _ is_wild name_ok);
            counted =
                omega (arith, inv.counted, params-brace name re saw_wild tokens buf hsplit is_wild);
            bound = ground (arith, p);
          },
          omega (arith, d, pos, ap length r, length-append (mark is_wild is_opt) (b'{' ∷ t)),
        )

    -- The text is read.
    pub Reading-end :
        {opt : Bool} (hsplit : Bool)
        → Reading ok limits source start opt pos rest buf tokens count
        → rest ≡ []
        → IsRead ok limits source start opt (flush tokens buf hsplit) count
    Reading-end {opt} hsplit inv r = (
      elim (Bool-cases opt) [
        | inl e ↦
            let (_, b) = inv.last e in
            let w = rw (e, b, r) at inv.whole in
            rw (e, b) (sym (append-nil (show_tokens true tokens)) ∙ w)
        | inr e ↦
            let w = rw (e, r) at inv.whole in
            rw e (
              show_tokens-flush tokens buf hsplit
              ∙ (ap (λ b. show_tokens false tokens ++ b) (sym (append-nil buf)) ∙ w))
      ],
      flush-IsToken ok _ tokens buf hsplit inv.made inv.literal,
      inv.counted ∙ ap (λ n. start + n) (sym (params-flush tokens buf hsplit)),
      inv.bound,
    )
