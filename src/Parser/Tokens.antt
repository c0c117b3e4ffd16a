-- ===== src/Parser/Tokens.antt =====
-- parser.go: what the tokens of a pattern print as, and the tokens that a parse may make.
use fox.Prelude.{
  ℕ, suc, ◌+◌, ◌≤◌, ◌≡◌, ◌≢◌, refl, sym, ap, ◌∙◌, Bool, true, false, if◌then◌else◌, Option, none,
  List, [], ◌∷◌, ◌++◌, arith, length, Bytes, is_empty, All, All-append, append_assoc, append-nil,
}
use fox.Route.{Token, static, param, wildcard}
use fox.Parser.{flush, brace_token}
use fox.Parser.Brace.Text.{brace_text, IsName}

-- A token as it is written. A wildcard that may be empty has a star.
abbrev pub show_token : Bool → Token → Bytes
show_token opt t = elim t.typ [
  | static ↦ t.value
  | param ↦ brace_text t.value t.regexp
  | wildcard ↦ (if opt then b'*' else b'+') ∷ brace_text t.value t.regexp
]

-- The flag is that of the last token.
abbrev pub show_tokens : Bool → List Token → Bytes
show_tokens opt [] = []
show_tokens opt (t ∷ []) = show_token opt t
show_tokens opt (t ∷ u ∷ ts) = show_token false t ++ show_tokens opt (u ∷ ts)

-- The number of parameters.
abbrev pub params : List Token → ℕ
params [] = 0
params (t ∷ ts) = elim t.typ [ static ↦ params ts | _ ↦ suc (params ts) ]

-- A literal text has this property; a parameter has a name that is not too long.
abbrev pub IsToken : (Bytes → Bool) → ℕ → Token → Type 0
IsToken ok max t =
    (is_empty t.value ≡ false)
    × elim t.typ [ static ↦ (ok t.value ≡ true) | _ ↦ (length t.value ≤ max) ]

pub show_tokens-last :
    (opt : Bool) (ts : List Token) (t : Token)
    → show_tokens opt (ts ++ t ∷ []) ≡ show_tokens false ts ++ show_token opt t
show_tokens-last opt [] t = refl
show_tokens-last opt (x ∷ []) t = refl
show_tokens-last opt (x ∷ y ∷ ts) t =
    ap (λ r. show_token false x ++ r) (show_tokens-last opt (y ∷ ts) t)
    ∙ sym (append_assoc (show_token false x) (show_tokens false (y ∷ ts)) (show_token opt t))

pub show_tokens-append :
    (opt : Bool) (ts us : List Token)
    → us ≢ []
    → show_tokens opt (ts ++ us) ≡ show_tokens false ts ++ show_tokens opt us
show_tokens-append opt [] us h = refl
show_tokens-append opt (t ∷ []) [] h = absurd (h refl)
show_tokens-append opt (t ∷ []) (u ∷ us) h = refl
show_tokens-append opt (t ∷ x ∷ ts) us h =
    ap (λ r. show_token false t ++ r) (show_tokens-append opt (x ∷ ts) us h)
    ∙ sym (append_assoc (show_token false t) (show_tokens false (x ∷ ts)) (show_tokens opt us))

pub show_tokens-flush :
    (ts : List Token) (buf : Bytes) (hsplit : Bool)
    → show_tokens false (flush ts buf hsplit) ≡ show_tokens false ts ++ buf
show_tokens-flush ts [] hsplit = sym (append-nil _)
show_tokens-flush ts (c ∷ buf) hsplit = show_tokens-last false ts _

pub params-append : (ts us : List Token) → params (ts ++ us) ≡ params ts + params us
params-append [] us = omega arith
params-append (t ∷ ts) us = ground (arith, params-append ts us)

pub params-flush :
    (ts : List Token) (buf : Bytes) (hsplit : Bool) → params (flush ts buf hsplit) ≡ params ts
params-flush ts [] hsplit = refl
params-flush ts (c ∷ buf) hsplit = omega (
  arith,
  params-append ts (
      record { regexp = none; value = c ∷ buf; typ = static; nested = false; hsplit = hsplit }
      ∷ []),
)

pub flush-IsToken :
    (ok : Bytes → Bool) (max : ℕ) (ts : List Token) (buf : Bytes) (hsplit : Bool)
    → All (IsToken ok max) ts
    → ok buf ≡ true
    → All (IsToken ok max) (flush ts buf hsplit)
flush-IsToken ok max ts [] hsplit h k = h
flush-IsToken ok max ts (c ∷ buf) hsplit h k = All-append (IsToken ok max) ts _ h ((refl, k), tt)

-- A parameter read behind a literal text.
pub show_tokens-param :
    (ts : List Token) (buf : Bytes) (hsplit opt : Bool) (t : Token)
    → show_tokens opt (flush ts buf hsplit ++ t ∷ [])
      ≡ show_tokens false ts ++ (buf ++ show_token opt t)
show_tokens-param ts buf hsplit opt t =
    show_tokens-last opt (flush ts buf hsplit) t
    ∙ (ap (λ r. r ++ show_token opt t) (show_tokens-flush ts buf hsplit)
        ∙ append_assoc (show_tokens false ts) buf (show_token opt t))

-- What stands in front of the brace.
abbrev pub mark : Bool → Bool → Bytes
mark false is_opt = []
mark true is_opt = (if is_opt then b'*' else b'+') ∷ []

module _ (name : Bytes) (re : Option Bytes) (saw_wild : Bool) where
  mark-token :
      (w is_opt : Bool)
      → show_token is_opt (brace_token w name re saw_wild) ≡ mark w is_opt ++ brace_text name re
  mark-token true is_opt = refl
  mark-token false is_opt = refl

  pub show_tokens-brace :
      (ts : List Token) (buf : Bytes) (hsplit is_wild is_opt : Bool)
      → show_tokens is_opt (flush ts buf hsplit ++ (brace_token is_wild name re saw_wild) ∷ [])
        ≡ show_tokens false ts ++ (buf ++ (mark is_wild is_opt ++ brace_text name re))
  show_tokens-brace ts buf hsplit is_wild is_opt =
      show_tokens-param ts buf hsplit is_opt _
      ∙ ap (λ r. show_tokens false ts ++ (buf ++ r)) (mark-token is_wild is_opt)

  pub brace-IsToken :
      (ok : Bytes → Bool) (max : ℕ) (is_wild : Bool)
      → IsName max name
      → All (IsToken ok max) (brace_token is_wild name re saw_wild ∷ [])
  brace-IsToken ok max true h = (h, tt)
  brace-IsToken ok max false h = (h, tt)

  pub params-brace :
      (ts : List Token) (buf : Bytes) (hsplit is_wild : Bool)
      → params (flush ts buf hsplit ++ (brace_token is_wild name re saw_wild) ∷ []) ≡ params ts + 1
  params-brace ts buf hsplit true = omega (
    arith,
    params-append (flush ts buf hsplit) (brace_token true name re saw_wild ∷ []),
    params-flush ts buf hsplit,
  )
  params-brace ts buf hsplit false = omega (
    arith,
    params-append (flush ts buf hsplit) (brace_token false name re saw_wild ∷ []),
    params-flush ts buf hsplit,
  )

-- The text around a parameter, read and printed.
pub brace-whole :
    (a b c x d rest path text : Bytes)
    → a ++ (b ++ rest) ≡ path
    → rest ≡ c ++ text
    → text ≡ x ++ d
    → (a ++ (b ++ (c ++ x))) ++ d ≡ path
brace-whole a b c x d rest path text h k l =
    rw (sym h, k, l, append_assoc a, append_assoc b, append_assoc c) refl
