-- ===== src/ClientIp.antt =====
-- clientip/clientip.go: the resolvers of the client's address, on the header X-Forwarded-For. `Net`
-- stands for net/netip, strings.TrimSpace and the sequences of internal/iterutil, which are lists; an
-- address that is not valid is `none`. Of an error its kind is kept.
pub mod Forged
pub mod Order
pub mod Quoted
use mathlib.Core.Option
use fox.Prelude.{
  ◌%◌, ℕ, suc, ◌+◌, ◌-◌, Bool, true, false, ◌&&◌, ◌||◌, not, Option, none, some, List, [], ◌∷◌,
  ◌++◌, map, ◌==◌, if◌then◌else◌, length, take, drop, get_or, get_elem?, Bytes, is_empty, ltb, leb,
}
use fox.Netutil.{split_host_port}

pub record Net (A P : Type 0) : Type 0 where
  pub parse : Bytes → Option A
  pub unmap : A → A
  pub without_zone : A → A
  pub is_unspecified : A → Bool
  pub is_4in6 : P → Bool
  pub bits : P → ℕ
  pub unmapped : P → ℕ → P
  pub contains : P → A → Bool
  pub trim_space : Bytes → Bytes
  pub split : Bytes → ℕ → List Bytes
  pub backward_split : Bytes → ℕ → List Bytes

pub data Failure : Type 0 where
  invalid_ip_address unspecified_ip_address trusted_peer_error remote_address single_ip leftmost
        rightmost trusted_count trusted_range no_resolver :
      Failure

-- An address, or the errors that are joined.
pub data Resolved (A : Type 0) : Type 0 where
  resolved : A → Resolved A
  failed : List Failure → Resolved A

pub record Request : Type 0 where
  pub remote_addr : Bytes
  pub forwarded_for : List Bytes
  pub header : Bytes → List Bytes

abbrev pub address : {A : Type 0} → Resolved A → Option A
address (resolved a) = some a
address (failed e) = none

-- fmt.Errorf("%w: %w", …)
abbrev pub wrap : {A : Type 0} → Failure → Resolved A → Resolved A
wrap f (resolved a) = resolved a
wrap f (failed e) = failed (f ∷ e)

unfoldable pub trim_matched_ends : Bytes → ℕ → ℕ → Bytes
trim_matched_ends s first last =
    if ltb (length s) 2
    then s
    else if not (get_or s 0 0 == first)
    then s
    else if not (get_or s (length s - 1) 0 == last)
    then s
    else take (length s - 2) (drop 1 s)

unfoldable pub last_header : List Bytes → Bytes
last_header [] = []
last_header (v ∷ []) = v
last_header (v ∷ w ∷ vs) = last_header (w ∷ vs)

module _ {A P : Type 0} (net : Net A P) where
  unfoldable pub parse_addr : Bytes → Resolved A
  unfolding trim_matched_ends split_host_port
  parse_addr ip =
      let host : Bytes = elim (split_host_port ip) [ none ↦ ip | some (h, port) ↦ h ] in
      elim (net.parse (trim_matched_ends host b'[' b']')) [
        | none ↦ failed (invalid_ip_address ∷ [])
        | some addr ↦
            if net.is_unspecified (net.without_zone (net.unmap addr))
            then failed (unspecified_ip_address ∷ [])
            else resolved (net.unmap addr)
      ]

  -- The prefix that is asked, in IPv4 form where it is mapped.
  abbrev pub asked : P → P
  asked r = if net.is_4in6 r && leb 96 (net.bits r) then net.unmapped r (net.bits r - 96) else r

  unfoldable pub is_contained_in_ranges : A → List P → Bool
  is_contained_in_ranges addr [] = false
  is_contained_in_ranges addr (r ∷ ranges) =
      net.contains (asked r) (net.without_zone addr) || is_contained_in_ranges addr ranges

  abbrev pub list_item : Bytes → Option A
  list_item item = address (parse_addr (net.trim_space item))

  unfoldable pub backward_addr_seq : List Bytes → List (Option A)
  unfolding parse_addr
  backward_addr_seq [] = []
  backward_addr_seq (v ∷ values) =
      backward_addr_seq values ++ map list_item (net.backward_split v b',')

  unfoldable pub addr_seq : List Bytes → List (Option A)
  unfolding parse_addr
  addr_seq [] = []
  addr_seq (v ∷ values) = map list_item (net.split v b',') ++ addr_seq values

  -- The loop of Chain, with the errors so far.
  unfoldable pub chain_from : List Failure → List (Request → Resolved A) → Request → Resolved A
  chain_from errs [] c = failed errs
  chain_from errs (sub ∷ resolvers) c =
      let rest : List Failure → Resolved A = λ e. chain_from (errs ++ e) resolvers c in
      elim (sub c) [ resolved a ↦ resolved a | failed e ↦ rest e ]

  unfoldable pub chain : List (Request → Resolved A) → Request → Resolved A
  unfolding chain_from
  chain [] c = failed (no_resolver ∷ [])
  chain (sub ∷ resolvers) c = chain_from [] (sub ∷ resolvers) c

  -- The peer is a valid address outside the ranges.
  unfoldable pub outside : List P → Bytes → Bool
  unfolding parse_addr is_contained_in_ranges
  outside ranges remote = elim (parse_addr remote) [
    | resolved peer ↦ not (is_contained_in_ranges peer ranges)
    | failed e ↦ false
  ]

  unfoldable pub trusted_peer : Option (List P) → (Request → Resolved A) → Request → Resolved A
  unfolding outside
  trusted_peer none inner c = failed (trusted_peer_error ∷ [])
  trusted_peer (some ranges) inner c =
      if outside ranges c.remote_addr then failed (trusted_peer_error ∷ []) else inner c

  unfoldable pub remote_addr : Request → Resolved A
  unfolding parse_addr
  remote_addr c = wrap remote_address (parse_addr c.remote_addr)

  unfoldable pub single_ip_header : Bytes → Request → Resolved A
  unfolding parse_addr last_header
  single_ip_header name c =
      let ip = last_header (c.header name) in
      if is_empty ip then failed (single_ip ∷ []) else wrap single_ip (parse_addr ip)

  -- The loop over addresses of LeftmostNonPrivate and RightmostNonPrivate.
  unfoldable pub first_outside : Failure → List P → List (Option A) → Resolved A
  unfolding is_contained_in_ranges
  first_outside f ranges [] = failed (f ∷ [])
  first_outside f ranges (none ∷ seq) = first_outside f ranges seq
  first_outside f ranges (some ip ∷ seq) =
      let rest = first_outside f ranges seq in
      if not (is_contained_in_ranges ip ranges) then resolved ip else rest

  unfoldable pub leftmost_non_private : List P → ℕ → Request → Resolved A
  unfolding first_outside addr_seq
  leftmost_non_private ranges limit c =
      first_outside leftmost ranges (take limit (addr_seq c.forwarded_for))

  unfoldable pub rightmost_non_private : List P → Request → Resolved A
  unfolding first_outside backward_addr_seq
  rightmost_non_private ranges c =
      first_outside rightmost ranges (backward_addr_seq c.forwarded_for)

  -- The address at an index of the sequence.
  unfoldable pub address_at : List (Option A) → ℕ → Resolved A
  address_at seq n = elim (get_elem? seq n) [
    | none ↦ failed (trusted_count ∷ [])
    | some none ↦ failed (trusted_count ∷ [])
    | some (some ip) ↦ resolved ip
  ]

  -- trustedCount-1 on a uint of 64 bits.
  unfoldable pub rightmost_trusted_count : ℕ → Request → Resolved A
  unfolding address_at backward_addr_seq
  rightmost_trusted_count count c =
      address_at (backward_addr_seq c.forwarded_for)
        ((count + 18446744073709551615) % 18446744073709551616)

  -- The loop of RightmostTrustedRange.
  unfoldable pub first_untrusted : List P → List (Option A) → Resolved A
  unfolding is_contained_in_ranges
  first_untrusted ranges [] = failed (trusted_range ∷ [])
  first_untrusted ranges (none ∷ seq) = failed (trusted_range ∷ [])
  first_untrusted ranges (some ip ∷ seq) =
      let rest = first_untrusted ranges seq in
      if is_contained_in_ranges ip ranges then rest else resolved ip

  unfoldable pub rightmost_trusted_range : Option (List P) → Request → Resolved A
  unfolding outside first_untrusted backward_addr_seq
  rightmost_trusted_range none c = failed (trusted_range ∷ [])
  rightmost_trusted_range (some ranges) c =
      let walked = first_untrusted ranges (backward_addr_seq c.forwarded_for) in
      if outside ranges c.remote_addr then parse_addr c.remote_addr else walked
