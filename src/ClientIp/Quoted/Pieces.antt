-- ===== src/ClientIp/Quoted/Pieces.antt =====
-- lastUnquoted, against the grammar of a header: bytes, and quoted strings with escapes.
use fox.Prelude.{
  ℕ, zero, suc, ◌+◌, ◌%◌, ◌≡◌, ◌≤◌, ◌<◌, refl, ap, ◌∙◌, Bool, true, false, ◌&&◌, ◌||◌, not, Option,
  none, some, List, [], ◌∷◌, ◌++◌, ◌==◌, ==_iff, if◌then◌else◌, arith, length, take, get_or, Bytes,
  inl, inr, All, Bool-cases, length-append, append_assoc, append-nil, take-length_append,
}
use fox.ClientIp.Quoted.{backslashes, is_escaped, next_quoted, scan_unquoted, last_unquoted}

-- What stands in a quoted string: a byte, or a backslash and a byte.
pub data QuotedChar : Type 0 where
  literal escaped : ℕ → QuotedChar

pub data Piece : Type 0 where
  plain : ℕ → Piece
  quoted : List QuotedChar → Piece

-- The last char, and the last piece, come first.
abbrev pub chars_text : List QuotedChar → Bytes
chars_text [] = []
chars_text (literal c ∷ qs) = chars_text qs ++ c ∷ []
chars_text (escaped c ∷ qs) = (chars_text qs ++ b'\\' ∷ []) ++ c ∷ []

abbrev pub pieces_text : List Piece → Bytes
pieces_text [] = []
pieces_text (plain c ∷ ps) = pieces_text ps ++ c ∷ []
pieces_text (quoted qs ∷ ps) = ((pieces_text ps ++ b'"' ∷ []) ++ chars_text qs) ++ b'"' ∷ []

-- A byte that is no quote and no backslash.
abbrev pub IsBare : ℕ → Type 0
IsBare c = ((c == b'"') ≡ false) × ((c == b'\\') ≡ false)

abbrev pub IsChar : QuotedChar → Type 0
IsChar (literal c) = IsBare c
IsChar (escaped c) = Unit

abbrev pub IsPiece : Piece → Type 0
IsPiece (plain c) = IsBare c
IsPiece (quoted qs) = All IsChar qs

-- The index of the last piece that is the separator.
unfoldable pub last_plain : ℕ → List Piece → Option ℕ
last_plain sep [] = none
last_plain sep (plain c ∷ ps) =
    let rest = last_plain sep ps in if c == sep then some (length (pieces_text ps)) else rest
last_plain sep (quoted qs ∷ ps) = last_plain sep ps

backslashes-snoc :
    (n : ℕ) (p : Bytes) (c : ℕ)
    → backslashes n (p ++ c ∷ []) ≡ (if c == b'\\' then suc (backslashes n p) else 0)
unfolding backslashes
backslashes-snoc n [] c = refl
backslashes-snoc n (x ∷ p) c = backslashes-snoc (if x == b'\\' then suc n else 0) p c

get_or-append : (p t : Bytes) (i : ℕ) → i < length p → get_or (p ++ t) i 0 ≡ get_or p i 0
get_or-append [] t i h = ground arith
get_or-append (x ∷ p) t zero h = refl
get_or-append (x ∷ p) t (suc i) h = get_or-append p t i (omega arith)

get_or-last : (p : Bytes) (c : ℕ) → get_or (p ++ c ∷ []) (length p) 0 ≡ c
get_or-last [] c = refl
get_or-last (x ∷ p) c = get_or-last p c

take-append : (p t : Bytes) (i : ℕ) → i ≤ length p → take i (p ++ t) ≡ take i p
take-append p t zero h = refl
take-append [] t (suc i) h = ground arith
take-append (x ∷ p) t (suc i) h = ap (λ r. x ∷ r) (take-append p t i (omega arith))

module _ (sep : ℕ) where
  -- The scan reads nothing behind its index.
  scan-append :
      (p t : Bytes) (i : ℕ) (q : Bool)
      → i ≤ length p
      → scan_unquoted (p ++ t) sep i q ≡ scan_unquoted p sep i q
  unfolding scan_unquoted next_quoted is_escaped
  scan-append p t zero q h = refl
  scan-append p t (suc i) q h =
      rw (get_or-append p t i (omega arith), take-append p t i (omega arith))
        (ap (λ r. if get_or p i 0 == sep && not q then some i else r)
          (scan-append p t i (next_quoted p sep i q) (omega arith)))

  -- The scan of a whole text.
  abbrev scan_all : Bytes → Bool → Option ℕ
  scan_all p q = scan_unquoted p sep (length p) q

  -- The flag in front of a byte that stands behind `p`.
  abbrev flag_before : Bytes → ℕ → Bool → Bool
  flag_before p c q =
      if c == sep
      then q
      else if c == b'"' && (not q || not (backslashes 0 p % 2 == 1))
      then not q
      else q

  scan_all-snoc :
      (p : Bytes) (c : ℕ) (q : Bool)
      → scan_all (p ++ c ∷ []) q
        ≡ (if c == sep && not q then some (length p) else scan_all p (flag_before p c q))
  unfolding scan_unquoted next_quoted is_escaped
  scan_all-snoc p c q =
      let n : length (p ++ c ∷ []) ≡ suc (length p) = omega (arith, length-append p (c ∷ [])) in
      rw (n, scan_unquoted, get_or-last p c, take-length_append p (c ∷ []))
        (ap (λ r. if c == sep && not q then some (length p) else r)
          (scan-append p (c ∷ []) (length p) (flag_before p c q) (omega arith)))

  -- The run of backslashes at the end has an even length: what comes behind is not escaped.
  abbrev IsOpen : Bytes → Type 0
  IsOpen p = backslashes 0 p % 2 ≡ 0

  IsOpen-snoc : (p : Bytes) (c : ℕ) → (c == b'\\') ≡ false → IsOpen (p ++ c ∷ [])
  IsOpen-snoc p c h = rw (backslashes-snoc 0 p c, h) refl

  IsOpen-escape : (p : Bytes) (c : ℕ) → IsOpen p → IsOpen ((p ++ b'\\' ∷ []) ++ c ∷ [])
  IsOpen-escape p c h = elim (Bool-cases (c == b'\\')) [
    | inl e ↦
        rw (backslashes-snoc 0 (p ++ b'\\' ∷ []) c, e, backslashes-snoc 0 p b'\\')
          (omega (arith, h))
    | inr e ↦ IsOpen-snoc (p ++ b'\\' ∷ []) c e
  ]

  -- In a quoted string a byte that is no quote changes nothing.
  inside : (p : Bytes) (c : ℕ) → (c == b'"') ≡ false → scan_all (p ++ c ∷ []) true ≡ scan_all p true
  inside p c h =
      scan_all-snoc p c true
      ∙ elim (Bool-cases (c == sep)) [ inl e ↦ rw e refl | inr e ↦ rw (e, h) refl ]

  -- And so does an escape.
  inside_escape :
      (p : Bytes) (c : ℕ) → IsOpen p → scan_all ((p ++ b'\\' ∷ []) ++ c ∷ []) true ≡ scan_all p true
  inside_escape p c h =
      scan_all-snoc (p ++ b'\\' ∷ []) c true
      ∙ (elim (Bool-cases (c == sep)) [ inl e ↦ rw e refl | inr e ↦ rw (e, odd, c_and) refl ]
          ∙ inside p b'\\' refl)
    where
      odd : (backslashes 0 (p ++ b'\\' ∷ []) % 2 == 1) ≡ true
      odd = rw (backslashes-snoc 0 p b'\\') ((==_iff _ 1).1 (omega (arith, h)))

      c_and : (c == b'"' && false) ≡ false
      c_and = ground arith

  chars-inside :
      (p : Bytes) (qs : List QuotedChar)
      → All IsChar qs
      → IsOpen p
      → (scan_all (p ++ chars_text qs) true ≡ scan_all p true) × IsOpen (p ++ chars_text qs)
  chars-inside p [] a h = rw (append-nil p) (refl, h)
  chars-inside p (literal c ∷ qs) ((d, e), a) h =
      let (f, g) = chars-inside p qs a h in
      rw (← append_assoc p (chars_text qs) (c ∷ []))
        (inside (p ++ chars_text qs) c d ∙ f, IsOpen-snoc (p ++ chars_text qs) c e)
  chars-inside p (escaped c ∷ qs) (_, a) h =
      let (f, g) = chars-inside p qs a h in
      rw
        (
          ← append_assoc p (chars_text qs ++ b'\\' ∷ []) (c ∷ []),
          ← append_assoc p (chars_text qs) (b'\\' ∷ []),
        )
        (inside_escape (p ++ chars_text qs) c g ∙ f, IsOpen-escape (p ++ chars_text qs) c g)

  -- The place of an index of the pieces, behind `p`.
  abbrev behind : Bytes → Option ℕ → Option ℕ
  behind p none = scan_all p false
  behind p (some j) = some (length p + j)

  module _ (bare : IsBare sep) where
    quote_ne : (b'"' == sep) ≡ false
    quote_ne = ground (arith, bare)

    -- A quoted string is passed over.
    string-passed :
        (p : Bytes) (qs : List QuotedChar)
        → All IsChar qs
        → IsOpen p
        → scan_all (((p ++ b'"' ∷ []) ++ chars_text qs) ++ b'"' ∷ []) false ≡ scan_all p false
    string-passed p qs a h =
        scan_all-snoc ((p ++ b'"' ∷ []) ++ chars_text qs) b'"' false
        ∙ rw quote_ne (
            (chars-inside (p ++ b'"' ∷ []) qs a (IsOpen-snoc p b'"' refl)).0
            ∙ (scan_all-snoc p b'"' true ∙ rw (quote_ne, even) refl))
      where
        even : (backslashes 0 p % 2 == 1) ≡ false
        even = rw h refl

    pieces-behind :
        (p : Bytes) (ps : List Piece)
        → All IsPiece ps
        → IsOpen p
        → (scan_all (p ++ pieces_text ps) false ≡ behind p (last_plain sep ps))
          × IsOpen (p ++ pieces_text ps)
    unfolding last_plain
    pieces-behind p [] a h = rw (append-nil p) (refl, h)
    pieces-behind p (plain c ∷ ps) ((d, e), a) h =
        let (f, g) = pieces-behind p ps a h in
        let s = scan_all-snoc (p ++ pieces_text ps) c false in
        rw (← append_assoc p (pieces_text ps) (c ∷ [])) (
          s ∙ elim (Bool-cases (c == sep)) [
            | inl k ↦ rw k (ap some (length-append p (pieces_text ps)))
            | inr k ↦ rw (k, d) f
          ],
          IsOpen-snoc (p ++ pieces_text ps) c e,
        )
    pieces-behind p (quoted qs ∷ ps) (d, a) h =
        let (f, g) = pieces-behind p ps a h in
        rw
          (
            ← append_assoc p ((pieces_text ps ++ b'"' ∷ []) ++ chars_text qs) (b'"' ∷ []),
            ← append_assoc p (pieces_text ps ++ b'"' ∷ []) (chars_text qs),
            ← append_assoc p (pieces_text ps) (b'"' ∷ []),
          )
          (
            string-passed (p ++ pieces_text ps) qs d g ∙ f,
            IsOpen-snoc (((p ++ pieces_text ps) ++ b'"' ∷ []) ++ chars_text qs) b'"' refl,
          )

    -- Where a text is made of bytes that are no quote and no backslash, and of quoted strings with
    -- escapes: lastUnquoted finds the last separator outside the strings, or nothing if there is none;
    -- and behind a separator and whatever a client has written in front of that, an open quote too, it
    -- finds the same separator, or that one if the text has none.
    pub last_unquoted-pieces :
        (client : Bytes) (ps : List Piece)
        → All IsPiece ps
        → (last_unquoted (pieces_text ps) sep ≡ last_plain sep ps)
          × (last_unquoted ((client ++ sep ∷ []) ++ pieces_text ps) sep
              ≡ some (elim (last_plain sep ps) [
                | none ↦ length client
                | some j ↦ suc (length client) + j
              ]))
    unfolding last_unquoted
    last_unquoted-pieces client ps a = (
      (pieces-behind [] ps a refl).0 ∙ by_place (last_plain sep ps),
      (pieces-behind (client ++ sep ∷ []) ps a (IsOpen-snoc client sep bare.1)).0
          ∙ by_client (last_plain sep ps),
    )
      where
        by_place : (o : Option ℕ) → behind [] o ≡ o
        by_place none = unfold scan_unquoted in refl
        by_place (some j) = ap some (omega arith)

        same : (sep == sep) ≡ true
        same = (==_iff sep sep).1 refl

        by_client :
            (o : Option ℕ)
            → behind (client ++ sep ∷ []) o
              ≡ some (elim o [ none ↦ length client | some j ↦ suc (length client) + j ])
        by_client none = scan_all-snoc client sep false ∙ rw same refl
        by_client (some j) = ap some (omega (arith, length-append client (sep ∷ [])))
