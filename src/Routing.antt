-- ===== src/Routing.antt =====
-- fox.go: the routing path of a request, its normalisation, and hexEscapeNonASCII.
pub mod Request
pub mod Redirect
pub mod Location
use mathlib.Core.Option
use fox.Prelude.{
  ℕ, zero, suc, ◌+◌, ◌-◌, ◌/◌, ◌%◌, Bool, true, false, ◌&&◌, ◌||◌, not, Option, none, some, List,
  [], ◌∷◌, ◌++◌, ◌==◌, if◌then◌else◌, length, take, drop, Bytes, is_empty, ltb, leb,
}
use fox.Parser.{NormalizeOption, exact_path, normalize_path, redirect_path}
use fox.Parser.Path.{is_exact}
use fox.StringsUtil.{escape_path, normalize_raw_path}
use fox.UrlPath.{merge_slashes}
use fox.UrlPath.Dots.{Collapsed, collapsed, above_root, no_fuel, collapse_dot_segments}

-- The fields of Router that say how a path is normalised.
pub record Modes : Type 0 where
  pub merge_slash : NormalizeOption
  pub collapse_dots : NormalizeOption

-- `opt == RedirectPath`
abbrev pub is_redirect : NormalizeOption → Bool
is_redirect exact_path = false
is_redirect normalize_path = false
is_redirect redirect_path = true

unfoldable pub normalize_routing_path : Modes → Bytes → Collapsed
unfolding merge_slashes collapse_dot_segments
normalize_routing_path modes path =
    let merged : Bytes = if not (is_exact modes.merge_slash) then merge_slashes path else path in
    if not (is_exact modes.collapse_dots) then collapse_dot_segments merged else collapsed merged

-- The path, and whether to redirect; or ok=false.
pub data Redirected : Type 0 where
  redirected : Bytes → Bool → Redirected
  rejected : Redirected
  unfinished : Redirected

-- The second pass, on the path and the flag of the first.
unfoldable pub redirect_collapsed : NormalizeOption → Bytes → Bool → Redirected
unfolding collapse_dot_segments
redirect_collapsed collapse_dots path redirect =
    if not (is_exact collapse_dots)
    then elim (collapse_dot_segments path) [
      | collapsed p ↦
          redirected p (redirect || (not (length p == length path) && is_redirect collapse_dots))
      | above_root ↦ rejected
      | no_fuel ↦ unfinished
    ]
    else redirected path redirect

unfoldable pub redirect_routing_path : Modes → Bytes → Redirected
unfolding merge_slashes redirect_collapsed
redirect_routing_path modes path =
    if not (is_exact modes.merge_slash)
    then (let merged = merge_slashes path in
        redirect_collapsed modes.collapse_dots merged
          (not (length merged == length path) && is_redirect modes.merge_slash))
    else redirect_collapsed modes.collapse_dots path false

-- Of the URL: RawPath and Path. The answer is the path, and whether the request is rewritten.
unfoldable pub routing_path : Bytes → Bytes → Bytes × Bool
unfolding escape_path normalize_raw_path
routing_path raw path =
    if is_empty raw
    then (escape_path path, false)
    else (let (norm, well_formed) = normalize_raw_path raw path in
        if is_empty norm then (escape_path path, true) else (norm, not well_formed))

abbrev pub lower_hex_digit : ℕ → ℕ
lower_hex_digit n = if ltb n 10 then b'0' + n else b'a' + (n - 10)

-- '%' and strconv.AppendInt(…, 16) of a byte of at least 0x80, which has two digits.
abbrev pub hex_escape : ℕ → Bytes
hex_escape c = b'%' ∷ lower_hex_digit (c / 16) ∷ lower_hex_digit (c % 16) ∷ []

-- The first loop.
unfoldable pub escaped_length : Bytes → ℕ
escaped_length [] = 0
escaped_length (c ∷ s) = if leb 128 c then 3 + escaped_length s else suc (escaped_length s)

-- The second loop: `pending` is s[pos:i].
unfoldable pub hex_escape_from : Bytes → Bytes → Bytes → Bytes
hex_escape_from b pending [] = b ++ pending
hex_escape_from b pending (c ∷ s) = elim (leb 128 c) [
  | true ↦ hex_escape_from (b ++ pending ++ hex_escape c) [] s
  | false ↦ hex_escape_from b (pending ++ c ∷ []) s
]

unfoldable pub hex_escape_non_ascii : Bytes → Bytes
unfolding escaped_length hex_escape_from
hex_escape_non_ascii s = if escaped_length s == length s then s else hex_escape_from [] [] s
