-- ===== src/Policies/Runs.antt =====
-- What the policies answer to a run of failures.
use gee_h.Prelude.{ℕ, zero, suc, ◌+◌, ◌*◌, ◌^◌, ◌≡◌, refl, sym, ◌∙◌, if◌then◌else◌, ltb, arith}
use native.Mathlib.Nat.{mul_assoc, mul_comm}
use native.Mathlib.Numerals.{unary_clauses}
use gee_h.Effect.{returns}
use gee_h.Policies.{
  ExponentialBackoff, exponential_backoff, back_off, LimitedErrors, limited_errors, count_failure,
}

-- The policy after `n` failures.
unfoldable pub backed_off : ℕ → ExponentialBackoff → ExponentialBackoff
backed_off zero b = b
backed_off (suc n) b = (back_off (backed_off n b)).0

unfoldable pub counted : ℕ → LimitedErrors → LimitedErrors
counted zero l = l
counted (suc n) l = (count_failure (counted n l)).0

record At (n min_delay max_delay : ℕ) (b : ExponentialBackoff) : Type 0 where
  max_kept : b.max_delay ≡ max_delay
  delay :
      b.current_delay ≡ (if ltb max_delay (min_delay * 2 ^ n) then max_delay else min_delay * 2 ^ n)

none_doubled : (m : ℕ) → m * 2 ^ 0 ≡ m
none_doubled m = omega arith

doubled : (m n : ℕ) → m * 2 ^ suc n ≡ 2 * (m * 2 ^ n)
doubled m n = simp unary_clauses (sym (mul_assoc m (2 ^ n) 2) ∙ mul_comm (m * 2 ^ n) 2)

backed_off-At :
    (n min_delay max_delay : ℕ) (b : ExponentialBackoff)
    → exponential_backoff min_delay max_delay ≡ returns b
    → At n min_delay max_delay (backed_off n b)
unfolding exponential_backoff backed_off back_off
backed_off-At zero m x b h = ground (arith, none_doubled m)
backed_off-At (suc n) m x b h = let v = backed_off-At n m x b h in ground (arith, v, doubled m n)

-- The delay after `n` earlier failures is the smallest delay times 2 ^ n, but never more than the
-- largest one.
pub back_off-backed_off :
    (n min_delay max_delay : ℕ) (b : ExponentialBackoff)
    → exponential_backoff min_delay max_delay ≡ returns b
    → (back_off (backed_off n b)).1
      ≡ (if ltb max_delay (min_delay * 2 ^ n) then max_delay else min_delay * 2 ^ n)
unfolding back_off
back_off-backed_off n m x b h = (backed_off-At n m x b h).delay

counted_lem :
    (n : ℕ) (l : LimitedErrors)
    → ((counted n l).current_count ≡ n + l.current_count)
      × ((counted n l).maximum_count ≡ l.maximum_count)
unfolding counted count_failure
counted_lem zero l = (omega arith, refl)
counted_lem (suc n) l = ground (arith, counted_lem n l)

-- After `n` earlier failures the policy allows another attempt exactly when `n` is less than the
-- maximum that it was built with.
pub count_failure-counted :
    (n maximum_count : ℕ) (l : LimitedErrors)
    → limited_errors maximum_count ≡ returns l
    → (count_failure (counted n l)).1 ≡ ltb n maximum_count
unfolding count_failure limited_errors
count_failure-counted n zero l h = absurd (ground arith)
count_failure-counted n (suc k) l h = ground (arith, counted_lem n l)
