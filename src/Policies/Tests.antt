-- ===== src/Policies/Tests.antt =====
-- A backoff from 10 to 50 milliseconds, and a limit of two errors.
use gee_h.Prelude.{ℕ, zero, suc, ◌≡◌, refl, Bool, true, false, List, [], ◌∷◌}
use gee_h.Effect.{returns, throws, invalid_argument}
use gee_h.Policies.{
  ExponentialBackoff, exponential_backoff, LimitedErrors, limited_errors, back_off, count_failure,
}

abbrev backoff : ExponentialBackoff
backoff = record { min_delay = 10; max_delay = 50; current_delay = 10 }

abbrev limit : LimitedErrors
limit = record { maximum_count = 2; current_count = 0 }

built : exponential_backoff 10 50 ≡ returns backoff
unfolding exponential_backoff
built = refl

limit_built : limited_errors 2 ≡ returns limit
unfolding limited_errors
limit_built = refl

-- rpc_policies_ut.cpp: the delays of five failures, and what five failures say of a limit of three.
unfoldable delays : ℕ → ExponentialBackoff → List ℕ
unfolding back_off
delays zero b = []
delays (suc n) b = let (c, delay) = back_off b in delay ∷ delays n c

unfoldable attempts : ℕ → LimitedErrors → List Bool
unfolding count_failure
attempts zero l = []
attempts (suc n) l = let (m, again) = count_failure l in again ∷ attempts n m

delays_test : delays 5 backoff ≡ 10 ∷ 20 ∷ 40 ∷ 50 ∷ 50 ∷ []
unfolding delays
delays_test = refl

attempts_test :
    attempts 5 (record { maximum_count = 3; current_count = 0 })
    ≡ true ∷ true ∷ true ∷ false ∷ false ∷ []
unfolding attempts
attempts_test = refl

refused_test :
    (exponential_backoff 1000 500 ≡ throws invalid_argument)
    × (limited_errors 0 ≡ throws invalid_argument)
unfolding exponential_backoff limited_errors
refused_test = (refl, refl)
