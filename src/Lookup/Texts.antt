-- ===== src/Lookup/Texts.antt =====
-- Parts of a path: what is read, what is left, and its last byte.
use fox.Prelude.{
  ℕ, zero, suc, ◌+◌, ◌-◌, ◌<◌, ◌≡◌, refl, sym, ap, ◌∙◌, true, false, [], ◌∷◌, ◌++◌, ◌==◌, arith,
  length, length-drop, take, drop, get_or, Bytes, beq, has_prefix,
}
use fox.Lookup.State.{has_suffix}
use fox.Lookup.Step.{is_search_slash}

take-nil : (n : ℕ) → take {A = ℕ} n [] ≡ []
take-nil zero = refl
take-nil (suc n) = refl

drop-nil : (n : ℕ) → drop {A = ℕ} n [] ≡ []
drop-nil zero = refl
drop-nil (suc n) = refl

pub take_append_take : (n m : ℕ) (xs : Bytes) → take n xs ++ take m (drop n xs) ≡ take (n + m) xs
take_append_take zero m xs = ground arith
take_append_take (suc n) m [] = rw (take-nil m, take-nil (suc n + m)) refl
take_append_take (suc n) m (x ∷ xs) =
    let e : suc n + m ≡ suc (n + m) = omega arith in
    rw e (ap (λ t. x ∷ t) (take_append_take n m xs))

pub drop-drop : (n m : ℕ) (xs : Bytes) → drop m (drop n xs) ≡ drop (n + m) xs
drop-drop zero m xs = ground arith
drop-drop (suc n) m [] = rw (drop-nil m, drop-nil (suc n + m)) refl
drop-drop (suc n) m (x ∷ xs) =
    let e : suc n + m ≡ suc (n + m) = omega arith in rw e (drop-drop n m xs)

pub get_or-drop : (n i : ℕ) (xs : Bytes) → get_or (drop n xs) i 0 ≡ get_or xs (n + i) 0
get_or-drop zero i xs = ground arith
get_or-drop (suc n) i [] = ground arith
get_or-drop (suc n) i (x ∷ xs) = ground (arith, get_or-drop n i xs)

pub drop_last : (n : ℕ) (xs : Bytes) → length xs ≡ n + 1 → drop n xs ≡ get_or xs n 0 ∷ []
drop_last zero [] h = absurd (omega arith)
drop_last zero (x ∷ []) h = refl
drop_last zero (x ∷ y ∷ xs) h = absurd (omega arith)
drop_last (suc n) [] h = absurd (omega arith)
drop_last (suc n) (x ∷ xs) h = drop_last n xs (omega arith)

pub has_prefix-drop : (k s : Bytes) → has_prefix k s ≡ true → k ≡ s ++ drop (length s) k
unfolding has_prefix
has_prefix-drop k [] h = ground arith
has_prefix-drop [] (y ∷ s) h = ground arith
has_prefix-drop (x ∷ k) (y ∷ s) h = ground (arith, has_prefix-drop k s)

pub has_suffix-last :
    (s : Bytes) (n : ℕ) → length s ≡ n + 1 → has_suffix s (b'/' ∷ []) ≡ (get_or s n 0 == b'/')
unfolding has_suffix beq
has_suffix-last s n h =
    let e : length s - 1 ≡ n = omega arith in
    rw (has_suffix, e, drop_last n s h) (ground (arith, h))

pub is_search_slash-append :
    (k s : Bytes)
    → is_search_slash k s ≡ true
    → (k ≡ s ++ b'/' ∷ []) × (get_or k (length k - 2) 0 == b'/' ≡ false) × (length k ≡ length s + 1)
unfolding is_search_slash
is_search_slash-append k s h =
    let l : length k ≡ length s + 1 = ground arith in
    let p : has_prefix k s ≡ true = ground arith in
    let c : get_or k (length k - 1) 0 ≡ b'/' = ground arith in
    let e : length k - 1 ≡ length s = omega arith in
    let d : drop (length s) k ≡ b'/' ∷ [] =
      drop_last (length s) k l ∙ ap (λ x. x ∷ []) (rw e at c) in
    (has_prefix-drop k s p ∙ ap (λ t. s ++ t) d, ground arith, l)

get_or-append : (p q : Bytes) (i : ℕ) → i < length p → get_or (p ++ q) i 0 ≡ get_or p i 0
get_or-append [] q i h = absurd (omega arith)
get_or-append (x ∷ p) q zero h = refl
get_or-append (x ∷ p) q (suc i) h = get_or-append p q i (omega arith)

-- The last byte of the path is that of what is left of it.
pub has_suffix-search :
    (path k : Bytes) (n : ℕ) (c : ℕ) (rest : Bytes)
    → drop n path ≡ c ∷ rest
    → is_search_slash k (c ∷ rest) ≡ true
    → has_suffix path (b'/' ∷ []) ≡ false
has_suffix-search path k n c rest d h =
    let (e, g, l) = is_search_slash-append k (c ∷ rest) h in
    let m : length path - n ≡ suc (length rest) = sym (length-drop n path) ∙ ap length d in
    let i : length k - 2 ≡ length rest = omega arith in
    let last : get_or k (length rest) 0 ≡ get_or path (n + length rest) 0 =
      ap (λ t. get_or t (length rest) 0) e
      ∙ get_or-append (c ∷ rest) (b'/' ∷ []) (length rest) (omega arith)
      ∙ ap (λ t. get_or t (length rest) 0) (sym d)
      ∙ get_or-drop n (length rest) path in
    has_suffix-last path (n + length rest) (omega arith)
    ∙ ap (λ x. x == b'/') (sym last)
    ∙ (rw i at g)
