-- ===== src/StringsUtil.antt =====
-- internal/stringsutil/stringutils.go: ASCII case, hexadecimal digits, EscapePath and
-- NormalizeRawPath. A byte is a number below 256; the tables are their membership tests.
pub mod Escape
pub mod Append
pub mod Normalize
use fox.Prelude.{
  ℕ, suc, ◌+◌, ◌-◌, ◌*◌, ◌/◌, ◌%◌, Bool, true, false, ◌&&◌, ◌||◌, not, Option, none, some, List, [],
  ◌∷◌, ◌++◌, ◌==◌, if◌then◌else◌, length, take, drop, Bytes, ltb, leb, beq, is_empty,
}

unfoldable pub is_upper : ℕ → Bool
is_upper b = leb b'A' b && leb b b'Z'

unfoldable pub is_lower : ℕ → Bool
is_lower b = leb b'a' b && leb b b'z'

unfoldable pub is_digit : ℕ → Bool
is_digit b = leb b'0' b && leb b b'9'

-- unreservedTab, as `init` leaves it.
unfoldable pub is_unreserved : ℕ → Bool
unfolding is_upper is_lower is_digit
is_unreserved b =
    is_lower b || is_upper b || is_digit b || b == b'-' || b == b'.' || b == b'_' || b == b'~'

-- pathNoEscape
unfoldable pub path_no_escape : ℕ → Bool
unfolding is_unreserved
path_no_escape b =
    b == b'$'
    || b == b'&'
    || b == b'+'
    || b == b','
    || b == b'/'
    || b == b':'
    || b == b';'
    || b == b'='
    || b == b'@'
    || is_unreserved b

-- pathKeepRaw
unfoldable pub is_routable_raw : ℕ → Bool
unfolding path_no_escape
is_routable_raw b =
    b == b'!'
    || b == b'\''
    || b == b'('
    || b == b')'
    || b == b'*'
    || b == b'['
    || b == b']'
    || path_no_escape b

-- The arithmetic of the third test is on bytes: s + 'a' - 'A' wraps, and does not below 'Z'.
unfoldable pub equal_ascii_ignore_case : ℕ → ℕ → Bool
equal_ascii_ignore_case s t =
    if t == s
    then true
    else let lo = if ltb t s then t else s in
      let hi = if ltb t s then s else t in leb b'A' lo && leb lo b'Z' && hi == lo + 32

-- The loop of EqualStringsASCIIIgnoreCase.
unfoldable pub equal_bytes_ignore_case : Bytes → Bytes → Bool
unfolding equal_ascii_ignore_case
equal_bytes_ignore_case [] s2 = true
equal_bytes_ignore_case (x ∷ s1) [] = false
equal_bytes_ignore_case (x ∷ s1) (y ∷ s2) =
    if not (equal_ascii_ignore_case x y) then false else equal_bytes_ignore_case s1 s2

unfoldable pub equal_strings_ascii_ignore_case : Bytes → Bytes → Bool
unfolding equal_bytes_ignore_case
equal_strings_ascii_ignore_case s1 s2 =
    if not (length s1 == length s2) then false else equal_bytes_ignore_case s1 s2

unfoldable pub to_lower_ascii : ℕ → ℕ
to_lower_ascii b = if leb b'A' b && leb b b'Z' then b + 32 else b

unfoldable pub hex_digit : ℕ → Option ℕ
hex_digit c =
    if leb b'0' c && leb c b'9'
    then some (c - b'0')
    else if leb b'a' c && leb c b'f'
    then some (c - b'a' + 10)
    else if leb b'A' c && leb c b'F'
    then some (c - b'A' + 10)
    else none

-- h<<4 | l: the low bits of h<<4 are free, since l < 16.
unfoldable pub decode_hex_pair : ℕ → ℕ → Option ℕ
unfolding hex_digit
decode_hex_pair hi lo = elim (hex_digit hi) [
  | none ↦ none
  | some h ↦ elim (hex_digit lo) [ none ↦ none | some l ↦ some (h * 16 + l) ]
]

unfoldable pub upper_hex : ℕ → ℕ
upper_hex c = if leb b'a' c && leb c b'f' then c - 32 else c

-- upperhex[n] for n below 16.
unfoldable pub upper_hex_digit : ℕ → ℕ
upper_hex_digit n = if ltb n 10 then b'0' + n else b'A' + (n - 10)

-- '%' and the two digits of c.
abbrev pub percent : ℕ → Bytes
percent c = b'%' ∷ upper_hex_digit (c / 16) ∷ upper_hex_digit (c % 16) ∷ []

-- The first loop of EscapePath: the number of leading bytes that need no escaping.
unfoldable pub clean_prefix : Bytes → ℕ
clean_prefix [] = 0
clean_prefix (c ∷ s) = if path_no_escape c then suc (clean_prefix s) else 0

-- The loop that counts the bytes to escape, with hexCount so far.
unfoldable pub hex_count : ℕ → Bytes → ℕ
hex_count n [] = n
hex_count n (c ∷ s) = if path_no_escape c then hex_count n s else hex_count (suc n) s

-- The size of the buffer, where the byte at `i` is the first one to escape.
unfoldable pub required : Bytes → ℕ → ℕ
unfolding hex_count
required path i = length path + 2 * hex_count 1 (drop (suc i) path)

-- The loop of escapeInto over the rest of the path.
unfoldable pub escape_rest : Bytes → Bytes
escape_rest [] = []
escape_rest (c ∷ s) = if path_no_escape c then c ∷ escape_rest s else percent c ++ escape_rest s

unfoldable pub escape_into : Bytes → ℕ → Bytes
unfolding escape_rest
escape_into path i = take i path ++ escape_rest (drop i path)

unfoldable pub escape_path : Bytes → Bytes
unfolding clean_prefix escape_into
escape_path path =
    let i = clean_prefix path in
    if i == length path
    then path
    else if beq path (b'*' ∷ [])
    then b'*' ∷ []
    else escape_into path i

-- The variables of NormalizeRawPath: `pending` is raw[start:i].
pub record Norm : Type 0 where
  pub buf : Bytes
  pub pending : Bytes
  pub well_formed : Bool

-- A byte of raw that is no escape.
unfoldable pub put_plain : ℕ → Norm → Norm
put_plain c s =
    if is_routable_raw c
    then record s { pending = s.pending ++ c ∷ [] }
    else record { buf = s.buf ++ s.pending ++ percent c; pending = []; well_formed = false }

-- An escape %xy of the byte b.
unfoldable pub put_escape : ℕ → ℕ → ℕ → Norm → Norm
put_escape x y b s =
    if is_unreserved b
    then record s { buf = s.buf ++ s.pending ++ b ∷ []; pending = [] }
    else if not (x == upper_hex x && y == upper_hex y)
    then record s {
      buf = s.buf ++ s.pending ++ b'%' ∷ upper_hex x ∷ upper_hex y ∷ [];
      pending = [];
    }
    else record s { pending = s.pending ++ b'%' ∷ x ∷ y ∷ [] }

-- The test that the next byte of path is `b`, and what is done behind it.
unfoldable pub expect : ℕ → Bytes → (Bytes → Option Norm) → Option Norm
expect b [] next = none
expect b (d ∷ path) next = if d == b then next path else none

-- The loop, over what is left of raw and of path; `none` is a return of ("", false).
unfoldable pub normalize_from : Bytes → Bytes → Norm → Option Norm
unfolding put_plain put_escape decode_hex_pair expect
normalize_from [] [] s = some s
normalize_from [] (d ∷ path) s = none
normalize_from (c ∷ []) path s =
    if c == b'%' then none else expect c path (λ p. normalize_from [] p (put_plain c s))
normalize_from (c ∷ x ∷ []) path s =
    if c == b'%' then none else expect c path (λ p. normalize_from (x ∷ []) p (put_plain c s))
normalize_from (c ∷ x ∷ y ∷ raw) path s =
    if c == b'%'
    then elim (decode_hex_pair x y) [
      | none ↦ none
      | some b ↦ expect b path (λ p. normalize_from raw p (put_escape x y b s))
    ]
    else expect c path (λ p. normalize_from (x ∷ y ∷ raw) p (put_plain c s))

unfoldable pub normalize_raw_path : Bytes → Bytes → Bytes × Bool
unfolding normalize_from
normalize_raw_path raw path =
    elim (normalize_from raw path (record { buf = []; pending = []; well_formed = true })) [
      | none ↦ ([], false)
      | some s ↦ (if is_empty s.buf then raw else s.buf ++ s.pending, s.well_formed)
    ]
