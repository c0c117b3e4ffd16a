-- ===== src/Tests/Addresses.antt =====
-- Concrete requests: an address is the number of bytes that it is written in.
use fox.Prelude.{
  ◌+◌, none, Option, ℕ, ◌≡◌, ◌↔◌, refl, sym, ap, ◌∙◌, false, some, List, [], ◌∷◌, ◌++◌, ◌==◌,
  if◌then◌else◌, arith, length, Bytes, codes, inl, inr, Bool-cases, append_assoc,
}
use fox.ClientIp.Quoted.{last_unquoted}
use fox.ClientIp.Quoted.Pieces.{
  literal, escaped, Piece, plain, quoted, pieces_text, last_plain, last_unquoted-pieces,
}
use fox.ClientIp.Order.{Answers, chain-first}
use fox.ClientIp.{
  chain, single_ip_header, remote_addr, Net, Request, resolved, rightmost_trusted_range,
  rightmost_trusted_count, backward_addr_seq, is_contained_in_ranges,
}
use fox.ClientIp.Forged.{
  HoldsAt, forge, rightmost_trusted_range-forged, rightmost_trusted_count-forged,
}

-- The first byte of a text goes in front of its last piece.
abbrev on_last : ℕ → List Bytes → List Bytes
on_last c [] = []
on_last c (s ∷ []) = (c ∷ s) ∷ []
on_last c (s ∷ t ∷ ss) = s ∷ on_last c (t ∷ ss)

unfoldable pieces : Bytes → ℕ → List Bytes
pieces [] sep = [] ∷ []
pieces (c ∷ s) sep = let rest = pieces s sep in if c == sep then rest ++ [] ∷ [] else on_last c rest

abbrev HasPiece : List Bytes → Type 0
HasPiece xs = (x : Bytes) × (rest : List Bytes) × (xs ≡ x ∷ rest)

on_last-append :
    (c : ℕ) (xs : List Bytes) (y : Bytes) (ys : List Bytes)
    → on_last c (xs ++ y ∷ ys) ≡ xs ++ on_last c (y ∷ ys)
on_last-append c [] y ys = refl
on_last-append c (x ∷ []) y ys = refl
on_last-append c (x ∷ z ∷ xs) y ys = ap (λ r. x ∷ r) (on_last-append c (z ∷ xs) y ys)

on_last-piece : (c : ℕ) (xs : List Bytes) → HasPiece xs → HasPiece (on_last c xs)
on_last-piece c [] (x, rest, e) = ground (arith, e)
on_last-piece c (s ∷ []) h = (c ∷ s, [], refl)
on_last-piece c (s ∷ t ∷ ss) h = (s, on_last c (t ∷ ss), refl)

some_piece : (s : Bytes) (sep : ℕ) → HasPiece (pieces s sep)
unfolding pieces
some_piece [] sep = ([], [], refl)
some_piece (c ∷ s) sep =
    let (x, rest, e) = some_piece s sep in
    elim (Bool-cases (c == sep)) [
      | inl q ↦ rw (pieces, q) (x, rest ++ [] ∷ [], ap (λ r. r ++ [] ∷ []) e)
      | inr q ↦ rw (pieces, q) (on_last-piece c (pieces s sep) (x, rest, e))
    ]

pieces-append : (a b : Bytes) → pieces (a ++ b',' ∷ b) b',' ≡ pieces b b',' ++ pieces a b','
unfolding pieces
pieces-append [] b = refl
pieces-append (c ∷ a) b = elim (Bool-cases (c == b',')) [
  | inl q ↦
      rw (pieces, q)
        (ap (λ r. r ++ [] ∷ []) (pieces-append a b)
          ∙ append_assoc (pieces b b',') (pieces a b',') _)
  | inr q ↦
      let (x, rest, e) = some_piece a b',' in
      rw (pieces, q)
        (ap (on_last c) (pieces-append a b ∙ ap (λ r. pieces b b',' ++ r) e)
          ∙ (on_last-append c (pieces b b',') x rest
              ∙ ap (λ r. pieces b b',' ++ on_last c r) (sym e)))
]

abbrev net : Net ℕ ℕ
net = record {
  parse = λ s. some (length s);
  unmap = λ a. a;
  without_zone = λ a. a;
  is_unspecified = λ a. a == 0;
  is_4in6 = λ p. false;
  bits = λ p. 32;
  unmapped = λ p n. p;
  contains = λ p a. p == a;
  trim_space = λ s. s;
  split = pieces;
  backward_split = pieces;
}

abbrev proxied : Request
proxied = record {
  remote_addr = codes "ab";
  forwarded_for = codes "xyz,ab" ∷ [];
  header = λ name. [];
}

found : rightmost_trusted_range net (some (2 ∷ [])) proxied ≡ resolved 3
unfolding rightmost_trusted_range pieces
found = refl

rightmost_trusted_range-forged_example :
    (rightmost_trusted_range net (some (2 ∷ [])) (record proxied {
      forwarded_for = forge net (codes "evil" ∷ []) (codes "worse") (codes "xyz,ab") [];
    })
      ≡ resolved 3)
    × (is_contained_in_ranges net 3 (2 ∷ []) ≡ false)
rightmost_trusted_range-forged_example =
    rightmost_trusted_range-forged net (2 ∷ []) proxied (codes "evil" ∷ []) (codes "worse")
      (codes "xyz,ab") [] 3 pieces-append refl found

rightmost_trusted_count-forged_example :
    HoldsAt net (backward_addr_seq net (codes "xyz,ab" ∷ [])) 1 3 ↔ (
      (rightmost_trusted_count net 2 proxied ≡ resolved 3)
      × (rightmost_trusted_count net 2 (record proxied {
        forwarded_for = forge net (codes "evil" ∷ []) (codes "worse") (codes "xyz,ab") [];
      })
          ≡ resolved 3))
rightmost_trusted_count-forged_example =
    rightmost_trusted_count-forged net 2 proxied (codes "evil" ∷ []) (codes "worse")
      (codes "xyz,ab") [] 3 pieces-append refl (omega arith) (omega arith)

second : rightmost_trusted_count net 2 proxied ≡ resolved 3
unfolding rightmost_trusted_count pieces
second = refl

chain-first_example :
    (chain net (single_ip_header net (codes "X-Real-IP") ∷ remote_addr net ∷ []) proxied
      ≡ resolved 2)
    ↔ Answers net proxied (single_ip_header net (codes "X-Real-IP") ∷ remote_addr net ∷ []) 2
chain-first_example =
    chain-first net proxied (single_ip_header net (codes "X-Real-IP") ∷ remote_addr net ∷ []) 2

-- The text for="a,\"b",x of two elements.
abbrev two_elements : List Piece
two_elements =
    plain b'x'
    ∷ plain b','
    ∷ quoted (literal b'b' ∷ escaped b'"' ∷ literal b',' ∷ literal b'a' ∷ [])
    ∷ plain b'='
    ∷ plain b'r'
    ∷ plain b'o'
    ∷ plain b'f'
    ∷ []

last_unquoted-pieces_example :
    (last_unquoted (pieces_text two_elements) b',' ≡ last_plain b',' two_elements)
    × (last_unquoted ((codes "for=\"" ++ b',' ∷ []) ++ pieces_text two_elements) b','
        ≡ some (elim (last_plain b',' two_elements) [ none ↦ 5 | some j ↦ 6 + j ]))
last_unquoted-pieces_example =
    last_unquoted-pieces b',' (refl, refl) (codes "for=\"") two_elements
      (
        (refl, refl),
        (
          (refl, refl),
          (
            ((refl, refl), (tt, ((refl, refl), ((refl, refl), tt)))),
            ((refl, refl), ((refl, refl), ((refl, refl), ((refl, refl), tt)))),
          ),
        ),
      )

abbrev found_at : Option ℕ
found_at = last_plain b',' two_elements

after_string : found_at ≡ some 11
unfolding last_plain
after_string = refl
