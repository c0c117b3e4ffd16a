-- ===== src/Netutil.antt =====
-- internal/netutil/netutil.go: SplitHostPort and StripHostPort. An index that is not there is
-- `none`; ParsePrefix calls net/netip only.
pub mod Parts
use mathlib.Core.Option
use fox.Prelude.{
  ℕ, zero, suc, ◌+◌, ◌-◌, Bool, true, false, ◌||◌, Option, none, some, List, [], ◌∷◌, ◌==◌,
  if◌then◌else◌, get_or, take, drop, Bytes, is_empty, index_byte,
}

-- strings.LastIndexByte(s, c)
unfoldable pub last_index_byte : Bytes → ℕ → Option ℕ
last_index_byte [] c = none
last_index_byte (x ∷ s) c = elim (last_index_byte s c) [
  | some i ↦ some (suc i)
  | none ↦ if x == c then some 0 else none
]

abbrev pub is_found : Option ℕ → Bool
is_found none = false
is_found (some i) = true

-- The last test, and the answer; the host may not begin before `j`, nor a bracket close before `k`.
unfoldable pub finish_split : Bytes → Bytes → ℕ → ℕ → ℕ → Option (Bytes × Bytes)
finish_split hostport host i j k =
    if is_found (index_byte (drop j hostport) b'[') || is_found (index_byte (drop k hostport) b']')
    then none
    else some (host, drop (suc i) hostport)

unfoldable pub split_host_port : Bytes → Option (Bytes × Bytes)
unfolding last_index_byte finish_split
split_host_port hostport = elim (last_index_byte hostport b':') [
  | none ↦ none
  | some i ↦
      if get_or hostport 0 0 == b'['
      then elim (index_byte hostport b']') [
        | none ↦ none
        | some end ↦
            if end + 1 == i
            then finish_split hostport (take (end - 1) (drop 1 hostport)) i 1 (end + 1)
            else none
      ]
      else if is_found (index_byte (take i hostport) b':')
      then none
      else finish_split hostport (take i hostport) i 0 0
]

-- strings.TrimSuffix(s, ".")
unfoldable pub trim_dot : Bytes → Bytes
trim_dot [] = []
trim_dot (x ∷ []) = if x == b'.' then [] else x ∷ []
trim_dot (x ∷ y ∷ s) = x ∷ trim_dot (y ∷ s)

unfoldable pub strip_host_port : Bytes → Bytes
unfolding split_host_port trim_dot
strip_host_port h =
    if is_empty h
    then h
    else if is_found (index_byte h b':')
    then elim (split_host_port h) [ none ↦ h | some (host, port) ↦ trim_dot host ]
    else trim_dot h
