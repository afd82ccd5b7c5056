-- ===== src/PrefixEnd/Range.antt =====
-- The keys between a prefix and its end, in the byte order of etcd.
use mathlib.Core.List.{reverse, reverse-cons, reverse-append, reverse-reverse, append_assoc}
use gee_h.Prelude.{
  ℕ, zero, suc, ◌<◌, ◌≡◌, refl, ◌∙◌, ap, Bool, true, false, not, ◌&&◌, List, [], ◌∷◌, ◌++◌, arith,
  bytes_lt, has_prefix, replicate, reverse-replicate,
}
use gee_h.PrefixEnd.{prefix_end, carry, append_maybe}

-- The keys `k` with `a <= k` and `k < b`: those that a range request with `key = a` and
-- `range_end = b` asks for.
abbrev pub in_range : List ℕ → List ℕ → List ℕ → Bool
in_range a b k = not (bytes_lt k a) && bytes_lt k b

carry-replicate :
    (n b : ℕ) (bs : List ℕ)
    → b < 255
    → carry (replicate n 255 ++ b ∷ bs) ≡ (replicate n 0 ++ suc b ∷ bs, false)
unfolding carry
carry-replicate zero b bs h = ground arith
carry-replicate (suc n) b bs h = ground (arith, carry-replicate n b bs h)

carry-replicate_all : (n : ℕ) → carry (replicate n 255) ≡ (replicate n 0, true)
unfolding carry
carry-replicate_all zero = refl
carry-replicate_all (suc n) = ground (arith, carry-replicate_all n)

reverse-middle : (p xs : List ℕ) (b : ℕ) → reverse (p ++ b ∷ xs) ≡ reverse xs ++ b ∷ reverse p
reverse-middle p xs b =
    reverse-append p (b ∷ xs)
    ∙ ap (λ ys. ys ++ reverse p) (reverse-cons b xs)
    ∙ append_assoc (reverse xs) (b ∷ []) (reverse p)

-- The last byte that is not 0xFF is incremented, and the 0xFF bytes behind it become 0x00.
pub prefix_end-eq :
    (p : List ℕ) (b n : ℕ)
    → b < 255
    → prefix_end (p ++ b ∷ replicate n 255) ≡ p ++ suc b ∷ replicate n 0
unfolding prefix_end append_maybe
prefix_end-eq p b n h =
    ap append_maybe (
      ap carry (reverse-middle p (replicate n 255) b)
      ∙ ap (λ ys. carry (ys ++ b ∷ reverse p)) (reverse-replicate n 255)
      ∙ carry-replicate n b (reverse p) h)
    ∙ reverse-middle (replicate n 0) (reverse p) (suc b)
    ∙ ap (λ ys. ys ++ suc b ∷ reverse (replicate n 0)) (reverse-reverse p)
    ∙ ap (λ ys. p ++ suc b ∷ ys) (reverse-replicate n 0)

prefix_end-eq_all : (n : ℕ) → prefix_end (replicate n 255) ≡ replicate n 0 ++ 1 ∷ []
unfolding prefix_end append_maybe
prefix_end-eq_all n =
    ap append_maybe (ap carry (reverse-replicate n 255) ∙ carry-replicate_all n)
    ∙ ap (λ ys. ys ++ 1 ∷ []) (reverse-replicate n 0)

pub in_range-suc :
    (p k : List ℕ) (b : ℕ) → in_range (p ++ b ∷ []) (p ++ suc b ∷ []) k ≡ has_prefix (p ++ b ∷ []) k
in_range-suc [] [] b = refl
in_range-suc [] (x ∷ []) b = ground arith
in_range-suc [] (x ∷ y ∷ k) b = ground arith
in_range-suc (c ∷ p) [] b = refl
in_range-suc (c ∷ p) (x ∷ k) b = ground (arith, in_range-suc p k b)

-- For a prefix whose last byte is not 0xFF, as in every election prefix, the keys from the prefix up
-- to its end are exactly the keys that start with the prefix.
pub in_range-prefix_end :
    (p k : List ℕ) (b : ℕ)
    → b < 255
    → in_range (p ++ b ∷ []) (prefix_end (p ++ b ∷ [])) k ≡ has_prefix (p ++ b ∷ []) k
in_range-prefix_end p k b h = rw (prefix_end-eq p b 0 h) (in_range-suc p k b)

not-bytes_lt-prefix : (p k : List ℕ) → has_prefix p k ≡ true → bytes_lt k p ≡ false
not-bytes_lt-prefix [] k h = refl
not-bytes_lt-prefix (b ∷ p) [] h = ground arith
not-bytes_lt-prefix (b ∷ p) (x ∷ k) h = ground (arith, not-bytes_lt-prefix p k)

bytes_lt-suc :
    (p q r k : List ℕ) (b : ℕ)
    → has_prefix (p ++ b ∷ q) k ≡ true
    → bytes_lt k (p ++ suc b ∷ r) ≡ true
bytes_lt-suc [] q r [] b h = ground arith
bytes_lt-suc [] q r (x ∷ k) b h = ground arith
bytes_lt-suc (c ∷ p) q r [] b h = ground arith
bytes_lt-suc (c ∷ p) q r (x ∷ k) b h = ground (arith, bytes_lt-suc p q r k b)

short_of_zeros :
    (p : List ℕ) (b n : ℕ)
    → (in_range
          (p ++ b ∷ replicate (suc n) 255)
          (p ++ suc b ∷ replicate (suc n) 0)
          (p ++ suc b ∷ [])
        ≡ true)
      × (has_prefix (p ++ b ∷ replicate (suc n) 255) (p ++ suc b ∷ []) ≡ false)
short_of_zeros [] b n = (ground arith, ground arith)
short_of_zeros (c ∷ p) b n = let (r, f) = short_of_zeros p b n in (ground arith, ground arith)

-- For every prefix with a byte other than 0xFF the range holds every key that starts with it.
pub in_range_of_has_prefix :
    (p k : List ℕ) (b n : ℕ)
    → b < 255
    → has_prefix (p ++ b ∷ replicate n 255) k ≡ true
    → in_range (p ++ b ∷ replicate n 255) (prefix_end (p ++ b ∷ replicate n 255)) k ≡ true
in_range_of_has_prefix p k b n h s = rw (prefix_end-eq p b n h) (
    rw (not-bytes_lt-prefix (p ++ b ∷ replicate n 255) k s)
      (bytes_lt-suc p (replicate n 255) (replicate n 0) k b s))

-- But for a prefix that ends in 0xFF, with another byte before the last ones, the range is too
-- large: the prefix with its 0xFF bytes cut off and the byte before them incremented is a key in it
-- that does not start with the prefix.
pub in_range_stray :
    (p : List ℕ) (b n : ℕ)
    → b < 255
    → let prefix = p ++ b ∷ replicate (suc n) 255 in
      let stray = p ++ suc b ∷ [] in
      (in_range prefix (prefix_end prefix) stray ≡ true) × (has_prefix prefix stray ≡ false)
in_range_stray p b n h = rw (prefix_end-eq p b (suc n) h) (short_of_zeros p b n)

-- For a prefix of 0xFF bytes alone the range is empty: the end stands before the prefix.
pub in_range-prefix_end_all :
    (n : ℕ) (k : List ℕ)
    → in_range (replicate (suc n) 255) (prefix_end (replicate (suc n) 255)) k ≡ false
in_range-prefix_end_all n k = rw (prefix_end-eq_all (suc n)) (below_zeros k)
  where
    below_zeros :
        (k : List ℕ) → in_range (replicate (suc n) 255) (replicate (suc n) 0 ++ 1 ∷ []) k ≡ false
    below_zeros [] = refl
    below_zeros (x ∷ k) = ground arith
