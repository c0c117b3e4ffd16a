-- ===== src/Routing/Location.antt =====
-- hexEscapeNonASCII: what a Location header holds.
use fox.Prelude.{
  ◌≤◌, ◌<◌, ◌≡◌, refl, sym, ap, ◌∙◌, [], ◌∷◌, ◌++◌, ◌==◌, if◌then◌else◌, arith, length, Bytes, leb,
  All, inl, inr, Bool-cases, append_assoc, append-nil,
}
use fox.Routing.{hex_escape, escaped_length, hex_escape_from, hex_escape_non_ascii}

-- Each byte by itself, for reference.
abbrev pub hex_escape_each : Bytes → Bytes
hex_escape_each [] = []
hex_escape_each (c ∷ s) = (if leb 128 c then hex_escape c else c ∷ []) ++ hex_escape_each s

from-each :
    (b pending s : Bytes) → hex_escape_from b pending s ≡ b ++ (pending ++ hex_escape_each s)
unfolding hex_escape_from
from-each b pending [] = ap (λ r. b ++ r) (sym (append-nil pending))
from-each b pending (c ∷ s) = elim (Bool-cases (leb 128 c)) [
  | inl e ↦
      rw (hex_escape_from, e)
        (from-each (b ++ pending ++ hex_escape c) [] s
          ∙ rw (append_assoc (b ++ pending), append_assoc b) refl)
  | inr e ↦
      rw (hex_escape_from, e)
        (from-each b (pending ++ c ∷ []) s
          ∙ ap (λ r. b ++ r) (append_assoc pending (c ∷ []) (hex_escape_each s)))
]

length-each : (s : Bytes) → length (hex_escape_each s) ≡ escaped_length s
unfolding escaped_length
length-each [] = refl
length-each (c ∷ s) = elim (Bool-cases (leb 128 c)) [
  | inl e ↦ rw (escaped_length, e) (omega (arith, length-each s))
  | inr e ↦ rw (escaped_length, e) (omega (arith, length-each s))
]

longer : (s : Bytes) → length s ≤ escaped_length s
unfolding escaped_length
longer [] = omega arith
longer (c ∷ s) = elim (Bool-cases (leb 128 c)) [
  | inl e ↦ rw (escaped_length, e) (omega (arith, longer s))
  | inr e ↦ rw (escaped_length, e) (omega (arith, longer s))
]

same-each : (s : Bytes) → escaped_length s ≡ length s → hex_escape_each s ≡ s
unfolding escaped_length
same-each [] h = refl
same-each (c ∷ s) h = elim (Bool-cases (leb 128 c)) [
  | inl e ↦ ground (arith, (rw (escaped_length, e) at h), longer s)
  | inr e ↦ rw e (ap (λ r. c ∷ r) (same-each s (omega (arith, (rw (escaped_length, e) at h)))))
]

ascii-each : (s : Bytes) → All (λ c. c < 256) s → All (λ c. c < 128) (hex_escape_each s)
ascii-each [] h = tt
ascii-each (c ∷ s) (h, hs) = elim (Bool-cases (leb 128 c)) [
  | inl e ↦ rw e (omega arith, (ground (arith, h), (ground (arith, h), ascii-each s hs)))
  | inr e ↦ rw e (ground (arith, e), ascii-each s hs)
]

-- On bytes, hexEscapeNonASCII escapes each byte that is not ASCII by itself and keeps the others;
-- the text is ASCII, and as long as the buffer that is made for it.
pub hex_escape_non_ascii-each :
    (s : Bytes)
    → All (λ c. c < 256) s
    → (hex_escape_non_ascii s ≡ hex_escape_each s)
      × (length (hex_escape_non_ascii s) ≡ escaped_length s)
      × All (λ c. c < 128) (hex_escape_non_ascii s)
unfolding hex_escape_non_ascii
hex_escape_non_ascii-each s h = rw each (refl, length-each s, ascii-each s h)
  where
    each : hex_escape_non_ascii s ≡ hex_escape_each s
    each = elim (Bool-cases (escaped_length s == length s)) [
      | inl e ↦ rw (hex_escape_non_ascii, e) (sym (same-each s (ground (arith, e))))
      | inr e ↦ rw (hex_escape_non_ascii, e) (from-each [] [] s)
    ]
