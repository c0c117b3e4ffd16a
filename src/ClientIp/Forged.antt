-- ===== src/ClientIp/Forged.antt =====
-- What a client writes in front of X-Forwarded-For does not reach the resolvers that read it from the
-- right.
use mathlib.Core.Option.{some_inj}
use fox.Prelude.{
  ℕ, zero, suc, ◌+◌, ◌-◌, ◌%◌, ◌<◌, ◌≡◌, ◌↔◌, length, refl, sym, ap, ◌∙◌, true, false, Option, none,
  some, List, [], ◌∷◌, ◌++◌, map, arith, Bytes, inl, inr, Bool-cases, append_assoc, append-nil,
}
use fox.ClientIp.{
  Net, resolved, Request, parse_addr, is_contained_in_ranges, list_item, backward_addr_seq, outside,
  first_untrusted, rightmost_trusted_range, address, address_at, rightmost_trusted_count,
}

map-append : {A B : Type 0} (f : A → B) (xs ys : List A) → map f (xs ++ ys) ≡ map f xs ++ map f ys
map-append f [] ys = refl
map-append f (x ∷ xs) ys = ap (λ r. f x ∷ r) (map-append f xs ys)

module _ {A P : Type 0} (net : Net A P) where
  -- BackwardSplitStringSeq gives the pieces behind a separator first.
  abbrev pub SplitsBackward : Type 0
  SplitsBackward =
      (a b : Bytes)
      → net.backward_split (a ++ b',' ∷ b) b','
        ≡ net.backward_split b b',' ++ net.backward_split a b','

  -- The header that a proxy leaves when it appends `v` to a text of the client, and the values behind.
  abbrev pub forge : List Bytes → Bytes → Bytes → List Bytes → List Bytes
  forge forged text v values = forged ++ (text ++ b',' ∷ v) ∷ values

  backward-append :
      (xs ys : List Bytes)
      → backward_addr_seq net (xs ++ ys) ≡ backward_addr_seq net ys ++ backward_addr_seq net xs
  unfolding backward_addr_seq
  backward-append [] ys = sym (append-nil _)
  backward-append (x ∷ xs) ys =
      ap (λ r. r ++ map (list_item net) (net.backward_split x b',')) (backward-append xs ys)
      ∙ append_assoc (backward_addr_seq net ys) (backward_addr_seq net xs) _

  -- The sequence begins as it would without the client's texts.
  backward-forge :
      (forged : List Bytes) (text v : Bytes) (values : List Bytes)
      → SplitsBackward
      → (more : List (Option A)) × (backward_addr_seq net (forge forged text v values)
          ≡ backward_addr_seq net (v ∷ values) ++ more)
  unfolding backward_addr_seq
  backward-forge forged text v values h =
      let items = map (list_item net) (net.backward_split v b',') in
      let theirs = map (list_item net) (net.backward_split text b',') in
      (
        theirs ++ backward_addr_seq net forged,
        backward-append forged ((text ++ b',' ∷ v) ∷ values)
            ∙ (ap (λ r. (backward_addr_seq net values ++ r) ++ backward_addr_seq net forged)
                  (ap (map (list_item net)) (h text v)
                    ∙ map-append (list_item net) (net.backward_split v b',')
                        (net.backward_split text b','))
                ∙ (ap (λ r. r ++ backward_addr_seq net forged)
                      (sym (append_assoc (backward_addr_seq net values) items theirs))
                    ∙ append_assoc (backward_addr_seq net values ++ items) theirs
                        (backward_addr_seq net forged))),
      )

  first_untrusted-append :
      (ranges : List P) (seq more : List (Option A)) (ip : A)
      → first_untrusted net ranges seq ≡ resolved ip
      → (first_untrusted net ranges (seq ++ more) ≡ resolved ip)
  unfolding first_untrusted
  first_untrusted-append ranges [] more ip e = ground (arith, e)
  first_untrusted-append ranges (none ∷ seq) more ip e = ground (arith, e)
  first_untrusted-append ranges (some a ∷ seq) more ip e =
      elim (Bool-cases (is_contained_in_ranges net a ranges)) [
        | inl c ↦
            rw (first_untrusted, c)
              (first_untrusted-append ranges seq more ip (rw (first_untrusted, c) at e))
        | inr c ↦ rw (first_untrusted, c) (rw (first_untrusted, c) at e)
      ]

  first_untrusted-outside :
      (ranges : List P) (seq : List (Option A)) (ip : A)
      → first_untrusted net ranges seq ≡ resolved ip
      → is_contained_in_ranges net ip ranges ≡ false
  unfolding first_untrusted
  first_untrusted-outside ranges [] ip e = ground (arith, e)
  first_untrusted-outside ranges (none ∷ seq) ip e = ground (arith, e)
  first_untrusted-outside ranges (some a ∷ seq) ip e =
      elim (Bool-cases (is_contained_in_ranges net a ranges)) [
        | inl c ↦ first_untrusted-outside ranges seq ip (rw (first_untrusted, c) at e)
        | inr c ↦
            let q : some a ≡ some ip = ap address (rw (first_untrusted, c) at e) in
            rw (sym (some_inj.0 q)) c
      ]

  peer-outside :
      (ranges : List P) (remote : Bytes) (ip : A)
      → outside net ranges remote ≡ true
      → parse_addr net remote ≡ resolved ip
      → is_contained_in_ranges net ip ranges ≡ false
  unfolding outside
  peer-outside ranges remote ip o e = ground (arith, (rw (outside, e) at o))

  -- Where iterutil splits backwards: an address that RightmostTrustedRange returns is outside the
  -- trusted ranges, and is returned whatever the client writes in front of the header, in the value
  -- that the first proxy extends and in values before it.
  pub rightmost_trusted_range-forged :
      (ranges : List P) (c : Request) (forged : List Bytes) (text v : Bytes) (values : List Bytes)
      (ip : A)
      → SplitsBackward
      → c.forwarded_for ≡ v ∷ values
      → rightmost_trusted_range net (some ranges) c ≡ resolved ip
      → (rightmost_trusted_range net
            (some ranges)
            (record c { forwarded_for = forge forged text v values })
          ≡ resolved ip)
        × (is_contained_in_ranges net ip ranges ≡ false)
  unfolding rightmost_trusted_range
  rightmost_trusted_range-forged ranges c forged text v values ip h r e =
      elim (Bool-cases (outside net ranges c.remote_addr)) [
        | inl o ↦
            let q = rw (rightmost_trusted_range, o) at e in
            rw (rightmost_trusted_range, o) (q, peer-outside ranges c.remote_addr ip o q)
        | inr o ↦
            let q = rw (rightmost_trusted_range, o, r) at e in
            let (more, s) = backward-forge forged text v values h in
            rw (rightmost_trusted_range, o, s)
              (
                first_untrusted-append ranges (backward_addr_seq net (v ∷ values)) more ip q,
                first_untrusted-outside ranges (backward_addr_seq net (v ∷ values)) ip q,
              )
      ]

  -- The element at index `n`, which is an address.
  abbrev pub HoldsAt : List (Option A) → ℕ → A → Type 0
  HoldsAt seq n ip = (pre post : List (Option A)) × (seq ≡ pre ++ some ip ∷ post) × (length pre ≡ n)

  address_at-HoldsAt :
      (seq : List (Option A)) (n : ℕ) (ip : A)
      → address_at net seq n ≡ resolved ip
      → HoldsAt seq n ip
  unfolding address_at
  address_at-HoldsAt [] n ip e = ground (arith, e)
  address_at-HoldsAt (none ∷ seq) zero ip e = ground (arith, e)
  address_at-HoldsAt (some a ∷ seq) zero ip e =
      let q : some a ≡ some ip = ap address e in
      ([], seq, ap (λ x. some x ∷ seq) (some_inj.0 q), refl)
  address_at-HoldsAt (a ∷ seq) (suc n) ip e =
      let (pre, post, q, l) = address_at-HoldsAt seq n ip e in
      (a ∷ pre, post, ap (λ r. a ∷ r) q, ap suc l)

  address_at-append :
      (pre post : List (Option A)) (ip : A)
      → address_at net (pre ++ some ip ∷ post) (length pre) ≡ resolved ip
  unfolding address_at
  address_at-append [] post ip = refl
  address_at-append (a ∷ pre) post ip = address_at-append pre post ip

  HoldsAt-address_at :
      (seq : List (Option A)) (n : ℕ) (ip : A)
      → HoldsAt seq n ip
      → address_at net seq n ≡ resolved ip
  HoldsAt-address_at seq n ip (pre, post, e, l) = rw (e, ← l) (address_at-append pre post ip)

  -- Where iterutil splits backwards, and for a count that a resolver can have: an address stands, from
  -- the right, behind as many elements as the count, less one, exactly if RightmostTrustedCount returns
  -- it, and returns it whatever the client writes in front of the header.
  pub rightmost_trusted_count-forged :
      (count : ℕ) (c : Request) (forged : List Bytes) (text v : Bytes) (values : List Bytes)
      (ip : A)
      → SplitsBackward
      → c.forwarded_for ≡ v ∷ values
      → 0 < count
      → count < 18446744073709551616
      → HoldsAt (backward_addr_seq net (v ∷ values)) (count - 1) ip ↔ (
          (rightmost_trusted_count net count c ≡ resolved ip)
          × (rightmost_trusted_count net count
                (record c { forwarded_for = forge forged text v values })
              ≡ resolved ip))
  unfolding rightmost_trusted_count
  rightmost_trusted_count-forged count c forged text v values ip h r l u =
      let seq = backward_addr_seq net (v ∷ values) in
      let (more, s) = backward-forge forged text v values h in
      let n : (count + 18446744073709551615) % 18446744073709551616 ≡ count - 1 =
        omega (arith, l, u) in
      (
        λ (pre, post, e, k). (
          rw (r, n) (HoldsAt-address_at seq (count - 1) ip (pre, post, e, k)),
          rw (n, s)
              (HoldsAt-address_at (seq ++ more) (count - 1) ip (
                pre,
                post ++ more,
                ap (λ x. x ++ more) e ∙ append_assoc pre (some ip ∷ post) more,
                k,
              )),
        ),
        λ (e, _). address_at-HoldsAt seq (count - 1) ip (rw (r, n) at e),
      )
