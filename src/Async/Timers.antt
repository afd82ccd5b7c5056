-- ===== src/Async/Timers.antt =====
-- gh/detail/deadline_timer.hpp: a timer that can be cancelled. Its resources are released only when the
-- completion queue reports it.
use gee_h.Prelude.{ℕ, List, ◌∷◌, Option, none, some}

-- The members that the base class does not have; an alarm of gRPC is known by the tag that it reports.
pub record DeadlineTimer : Type 0 where
  pub deadline : ℕ
  pub alarm : Option ℕ

-- `op->deadline = deadline`, on an operation that was just made.
unfoldable pub with_deadline : ℕ → DeadlineTimer
with_deadline deadline = record { deadline = deadline; alarm = none }

-- The interceptor's function, which makes the alarm.
unfoldable pub set_alarm : ℕ → DeadlineTimer → DeadlineTimer
set_alarm tag op = record op { alarm = some tag }

-- The alarms on which `Cancel()` was called so far; the object stays as it is.
unfoldable pub cancel : DeadlineTimer → List ℕ → List ℕ
cancel op cancelled = elim op.alarm [ none ↦ cancelled | some tag ↦ tag ∷ cancelled ]
