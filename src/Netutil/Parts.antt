-- ===== src/Netutil/Parts.antt =====
-- SplitHostPort finds the parts of an address that was put together from them.
use fox.Prelude.{
  take-length_append, ℕ, suc, ◌+◌, ◌-◌, ◌≡◌, refl, true, false, none, some, [], ◌∷◌, ◌++◌, ◌==◌,
  inl, inr, arith, length, get_or, drop, Bytes, is_empty, index_byte, All, All-append, ==_iff,
  Bool-cases, Option-cases,
}
use fox.Netutil.{
  last_index_byte, is_found, finish_split, split_host_port, trim_dot, strip_host_port,
}

-- The byte is not in the text.
abbrev pub Lacks : ℕ → Bytes → Type 0
Lacks c s = All (λ x. (x == c) ≡ false) s

-- None of the bytes that SplitHostPort looks for is in the text.
abbrev pub IsPlain : Bytes → Type 0
IsPlain s = Lacks b':' s × Lacks b'[' s × Lacks b']' s

index_byte-Lacks : (s : Bytes) (c : ℕ) → Lacks c s → index_byte s c ≡ none
unfolding index_byte
index_byte-Lacks [] c h = refl
index_byte-Lacks (x ∷ s) c h = rw (index_byte, h.0, index_byte-Lacks s c h.1) refl

index_byte-first : (a b : Bytes) (c : ℕ) → Lacks c a → index_byte (a ++ c ∷ b) c ≡ some (length a)
unfolding index_byte
index_byte-first [] b c h = rw ((==_iff c c).1 refl) refl
index_byte-first (x ∷ a) b c h = rw (index_byte, h.0, index_byte-first a b c h.1) refl

last_index_byte-Lacks : (s : Bytes) (c : ℕ) → Lacks c s → last_index_byte s c ≡ none
unfolding last_index_byte
last_index_byte-Lacks [] c h = refl
last_index_byte-Lacks (x ∷ s) c h = rw (last_index_byte, last_index_byte-Lacks s c h.1, h.0) refl

pub last_index_byte-last :
    (a b : Bytes) (c : ℕ) → Lacks c b → last_index_byte (a ++ c ∷ b) c ≡ some (length a)
unfolding last_index_byte
last_index_byte-last [] b c h =
    rw (last_index_byte, last_index_byte-Lacks b c h, (==_iff c c).1 refl) refl
last_index_byte-last (x ∷ a) b c h = rw (last_index_byte, last_index_byte-last a b c h) refl

drop-behind : (a b : Bytes) (c : ℕ) → drop (suc (length a)) (a ++ c ∷ b) ≡ b
drop-behind [] b c = refl
drop-behind (x ∷ a) b c = drop-behind a b c

first_no_bracket :
    (host port : Bytes) → Lacks b'[' host → (get_or (host ++ b':' ∷ port) 0 0 == b'[') ≡ false
first_no_bracket [] port h = refl
first_no_bracket (x ∷ host) port h = h.0

last_bracket :
    (host port : Bytes)
    → Lacks b':' port
    → last_index_byte (host ++ b']' ∷ b':' ∷ port) b':' ≡ some (suc (length host))
unfolding last_index_byte
last_bracket [] port h = rw (last_index_byte-last [] port b':' h) refl
last_bracket (x ∷ host) port h = rw (last_index_byte, last_bracket host port h) refl

drop_bracket :
    (host port : Bytes) → drop (suc (suc (length host))) (host ++ b']' ∷ b':' ∷ port) ≡ port
drop_bracket [] port = refl
drop_bracket (x ∷ host) port = drop_bracket host port

-- A host and a port without colons and brackets are found again, in the form "host:port".
pub split_host_port-plain :
    (host port : Bytes)
    → IsPlain host
    → IsPlain port
    → split_host_port (host ++ b':' ∷ port) ≡ some (host, port)
unfolding split_host_port finish_split
split_host_port-plain host port (h1, h2, h3) (p1, p2, p3) =
    rw
      (
        split_host_port,
        last_index_byte-last host port b':' p1,
        first_no_bracket host port h2,
        take-length_append host (b':' ∷ port),
        index_byte-Lacks host b':' h1,
        finish_split,
        index_byte-Lacks (host ++ b':' ∷ port) b'['
            (All-append (λ x. (x == b'[') ≡ false) host (b':' ∷ port) h2 (refl, p2)),
        index_byte-Lacks (host ++ b':' ∷ port) b']'
            (All-append (λ x. (x == b']') ≡ false) host (b':' ∷ port) h3 (refl, p3)),
        drop-behind host port b':',
      )
      refl

-- The same of a host with colons, such as an IPv6 address, in the form "[host]:port".
pub split_host_port-bracketed :
    (host port : Bytes)
    → Lacks b'[' host
    → Lacks b']' host
    → IsPlain port
    → split_host_port (b'[' ∷ host ++ b']' ∷ b':' ∷ port) ≡ some (host, port)
unfolding split_host_port finish_split
split_host_port-bracketed host port h2 h3 (p1, p2, p3) =
    let n = length host in
    let next : suc n + 1 ≡ suc (suc n) = omega arith in
    let pred : suc n - 1 ≡ n = omega arith in
    rw
      (
        last_bracket host port p1,
        index_byte-first (b'[' ∷ host) (b':' ∷ port) b']' (refl, h3),
        next,
        (==_iff (suc (suc n)) (suc (suc n))).1 refl,
        pred,
        finish_split,
        take-length_append host (b']' ∷ b':' ∷ port),
        index_byte-Lacks (host ++ b']' ∷ b':' ∷ port) b'['
            (All-append (λ x. (x == b'[') ≡ false) host (b']' ∷ b':' ∷ port) h2 (refl, (refl, p2))),
        drop-behind host (b':' ∷ port) b']',
        index_byte-Lacks (b':' ∷ port) b']' (refl, p3),
        drop_bracket host port,
      )
      refl

index_byte-found : (a b : Bytes) (c : ℕ) → is_found (index_byte (a ++ c ∷ b) c) ≡ true
unfolding index_byte
index_byte-found [] b c = rw ((==_iff c c).1 refl) refl
index_byte-found (x ∷ a) b c = elim (Bool-cases (x == c)) [
  | inl e ↦ rw (index_byte, e) refl
  | inr e ↦ elim (Option-cases (index_byte (a ++ c ∷ b) c)) [
    | inl f ↦ ground (arith, (rw f at (index_byte-found a b c)))
    | inr (i, f) ↦ rw (index_byte, e, f) refl
  ]
]

not_empty : (a b : Bytes) (c : ℕ) → is_empty (a ++ c ∷ b) ≡ false
not_empty [] b c = refl
not_empty (x ∷ a) b c = refl

strip_host : (host : Bytes) → Lacks b':' host → strip_host_port host ≡ trim_dot host
unfolding strip_host_port trim_dot
strip_host [] h = refl
strip_host (x ∷ host) h = rw (strip_host_port, index_byte-Lacks (x ∷ host) b':' h) refl

-- StripHostPort gives the same for a host without colons and brackets, with a port or without one:
-- the host without a trailing dot.
pub strip_host_port-plain :
    (host port : Bytes)
    → IsPlain host
    → IsPlain port
    → (strip_host_port (host ++ b':' ∷ port) ≡ trim_dot host)
      × (strip_host_port host ≡ trim_dot host)
unfolding strip_host_port
strip_host_port-plain host port h p = (
  rw
      (
        strip_host_port,
        not_empty host port b':',
        index_byte-found host port b':',
        split_host_port-plain host port h p,
      )
      refl,
  strip_host host h.0,
)
