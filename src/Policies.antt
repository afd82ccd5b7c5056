-- ===== src/Policies.antt =====
-- gh/detail/rpc_policies.hpp and .cpp: how long a client waits before it tries a failed call again,
-- and how often it tries. Times are in milliseconds.
pub mod Runs
mod Tests
use gee_h.Prelude.{ℕ, zero, suc, ◌+◌, ◌*◌, Bool, if◌then◌else◌, ltb, leb}
use gee_h.Effect.{Outcome, returns, throws, invalid_argument}

pub record ExponentialBackoff : Type 0 where
  pub min_delay : ℕ
  pub max_delay : ℕ
  pub current_delay : ℕ

-- The constructor, with `validate_arguments`.
unfoldable pub exponential_backoff : ℕ → ℕ → Outcome ExponentialBackoff
exponential_backoff min_delay max_delay =
    if ltb max_delay min_delay
    then throws invalid_argument
    else returns
        (record { min_delay = min_delay; max_delay = max_delay; current_delay = min_delay })

-- `on_failure()`: the policy afterwards, and the delay.
unfoldable pub back_off : ExponentialBackoff → ExponentialBackoff × ℕ
back_off b =
    let doubled = 2 * b.current_delay in
    (
      record b { current_delay = if ltb b.max_delay doubled then b.max_delay else doubled },
      b.current_delay,
    )

pub record LimitedErrors : Type 0 where
  pub maximum_count : ℕ
  pub current_count : ℕ

-- The constructor, for a count that is not negative.
unfoldable pub limited_errors : ℕ → Outcome LimitedErrors
limited_errors zero = throws invalid_argument
limited_errors (suc n) = returns (record { maximum_count = suc n; current_count = 0 })

-- `on_failure()`: the policy afterwards, and whether to try again.
unfoldable pub count_failure : LimitedErrors → LimitedErrors × Bool
count_failure l =
    (record l { current_count = suc l.current_count }, ltb l.current_count l.maximum_count)

pub record LimitedTime : Type 0 where
  pub duration : ℕ
  pub deadline : ℕ

-- The constructor at time `now`.
unfoldable pub limited_time : ℕ → ℕ → LimitedTime
limited_time now duration = record { duration = duration; deadline = now + duration }

unfoldable pub before_deadline : ℕ → LimitedTime → Bool
before_deadline now l = ltb now l.deadline

-- A clone has a deadline of its own.
unfoldable pub clone_limited_time : ℕ → LimitedTime → LimitedTime
unfolding limited_time
clone_limited_time now l = limited_time now l.duration
