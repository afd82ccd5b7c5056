-- ===== src/Errors/Streams.antt =====
-- gh/assert_throw.hpp and .cpp, gh/detail/stream_future_status.hpp: the small helpers that
-- write to a stream or raise an exception.
use gee_h.Prelude.{codes, ℕ, Bool, not, List, [], ◌∷◌, ◌++◌, Option, none, some, if◌then◌else◌}
use gee_h.Log.{decimal}
use gee_h.Effect.{Outcome, returns, throws, runtime_error}

-- The texts that `assert_throw_impl` puts around its arguments.
abbrev failure_text : List ℕ
failure_text = codes "assertion failure ("

abbrev not_true_text : List ℕ
not_true_text = codes ") was not true in "

-- It always raises.
unfoldable pub assert_throw_impl : List ℕ → List ℕ → List ℕ → ℕ → Outcome (Unit {0})
unfolding decimal
assert_throw_impl what function filename lineno = throws (
    runtime_error (
      failure_text
      ++ what
      ++ not_true_text
      ++ function
      ++ b'@' ∷ b' ' ∷ b'(' ∷ filename
      ++ b':' ∷ decimal lineno
      ++ b')' ∷ []))

-- The macro `GH_ASSERT_THROW(P)`, with the text of `P` and the place where it stands.
unfoldable pub gh_assert_throw : Bool → List ℕ → List ℕ → List ℕ → ℕ → Outcome (Unit {0})
unfolding assert_throw_impl
gh_assert_throw p what function filename lineno =
    if not p then assert_throw_impl what function filename lineno else returns tt

-- The enumerators of `std::future_status`, and any other value of the type.
pub data FutureStatus : Type 0 where
  ready timeout deferred : FutureStatus
  unknown : FutureStatus

-- `operator<<`; none if it raises.
unfoldable pub stream_future_status : List ℕ → FutureStatus → Option (List ℕ)
stream_future_status os timeout = some (os ++ codes "[timeout]")
stream_future_status os ready = some (os ++ codes "[ready]")
stream_future_status os deferred = some (os ++ codes "[deferred]")
stream_future_status os unknown = none
