-- ===== src/ClientIp/Quoted.antt =====
-- clientip/clientip.go: isEscaped and lastUnquoted, which cut the elements off the header Forwarded from
-- its end.
pub mod Pieces
use fox.Prelude.{
  ℕ, zero, suc, ◌%◌, Bool, false, ◌&&◌, ◌||◌, not, Option, none, some, [], ◌∷◌, ◌==◌, if◌then◌else◌,
  length, take, get_or, Bytes,
}

-- The length of the run of backslashes at the end, with `n` of it before.
unfoldable pub backslashes : ℕ → Bytes → ℕ
backslashes n [] = n
backslashes n (c ∷ s) = backslashes (if c == b'\\' then suc n else 0) s

unfoldable pub is_escaped : Bytes → ℕ → Bool
unfolding backslashes
is_escaped s i = backslashes 0 (take i s) % 2 == 1

-- The flag behind the byte at `i`.
unfoldable pub next_quoted : Bytes → ℕ → ℕ → Bool → Bool
unfolding is_escaped
next_quoted s sep i quoted =
    if get_or s i 0 == sep
    then quoted
    else if get_or s i 0 == b'"' && (not quoted || not (is_escaped s i))
    then not quoted
    else quoted

-- The loop, below `i`.
unfoldable pub scan_unquoted : Bytes → ℕ → ℕ → Bool → Option ℕ
unfolding next_quoted
scan_unquoted s sep zero quoted = none
scan_unquoted s sep (suc i) quoted =
    let rest = scan_unquoted s sep i (next_quoted s sep i quoted) in
    if get_or s i 0 == sep && not quoted then some i else rest

unfoldable pub last_unquoted : Bytes → ℕ → Option ℕ
unfolding scan_unquoted
last_unquoted s sep = scan_unquoted s sep (length s) false
