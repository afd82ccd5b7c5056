-- ===== src/Async/LoopScenarios.antt =====
-- gh/completion_queue_ut.cpp on the model: timers whose alarms gRPC reports to the loop. An alarm on
-- which `Cancel()` was called is reported with `ok` false, and any other with `ok` true.
use gee_h.Prelude.{
  codes, ℕ, ◌+◌, ◌≡◌, refl, Bool, true, false, not, List, [], ◌∷◌, if◌then◌else◌, ◌==◌,
}
use gee_h.Effect.{Completion}
use gee_h.Queue.{register_op, got_shutdown, run, run_next, unregister_op, remove, shutdown}
use gee_h.Queue as Base
use gee_h.Async.{
  CompletionQueue, functor, FunctorCall, new, create_op, post, start, make_deadline_timer,
  make_relative_timer, deadline_timer, finish_op, AsyncOp,
}
use gee_h.Async.Calls.{report, call_back}
use gee_h.Async.Timers.{with_deadline, set_alarm, cancel}
use gee_h.Async.Mocked.{MockedInterceptor, intercept, try_cancel_on, MockCall}

abbrev Timed : Type 0
Timed = CompletionQueue ℕ ℕ

abbrev timer_name : List ℕ
timer_name = codes "timer"

abbrev member : ℕ → List ℕ → Bool
member t [] = false
member t (u ∷ us) = if u == t then true else member t us

-- What gRPC reports of the alarm with this tag.
abbrev alarm : List ℕ → ℕ → Completion ℕ
alarm cancelled t = record { ok = not (member t cancelled); status = 0; response = 0 }

-- The counters of the tests.
abbrev count_ok : List (FunctorCall ℕ) → ℕ
count_ok [] = 0
count_ok (x ∷ xs) = if x.completion.ok then 1 + count_ok xs else count_ok xs

abbrev count_cancelled : List (FunctorCall ℕ) → ℕ
count_cancelled [] = 0
count_cancelled (x ∷ xs) = if x.completion.ok then count_cancelled xs else 1 + count_cancelled xs

-- `TEST(completion_queue, basic)`: two timers, the first one cancelled; both are reported, then the
-- queue is shut down.
unfoldable basic_cancelled : List ℕ
unfolding with_deadline set_alarm cancel
basic_cancelled = cancel (set_alarm 1 (with_deadline 5)) []

unfoldable basic : Timed
unfolding new Base.new make_relative_timer make_deadline_timer start create_op register_op post
    report run run_next unregister_op remove call_back basic_cancelled
basic =
    let q : Timed = (make_relative_timer 1 0 5 timer_name (functor 0) new).0 in
    let q : Timed = (make_relative_timer 2 0 5 timer_name (functor 0) q).0 in
    let q : Timed = (report 1 (alarm basic_cancelled 1) q).0 in
    (report 2 (alarm basic_cancelled 2) q).0

unfoldable basic_ended : Bool
unfolding basic shutdown run run_next
basic_ended = (run got_shutdown (shutdown basic.base)).0.ended

basic_test : (count_ok basic.called ≡ 1) × (count_cancelled basic.called ≡ 1) × (basic_ended ≡ true)
unfolding basic basic_ended
basic_test = (refl, refl, refl)

-- `TEST(completion_queue, error)`: an alarm with a null tag, one with a tag that the queue does not
-- know, and then the timer's.
unfoldable error : Timed
unfolding new Base.new make_relative_timer make_deadline_timer start create_op register_op post
    report run run_next unregister_op remove call_back
error =
    let q : Timed = (make_relative_timer 3 0 30 timer_name (functor 0) new).0 in
    let q : Timed = (report 0 (alarm [] 0) q).0 in
    let q : Timed = (report 9 (alarm [] 9) q).0 in (report 3 (alarm [] 3) q).0

error_test : count_ok error.called ≡ 1
unfolding error
error_test = refl

-- The mock gets the operations of two calls and a `TryCancel()`.
abbrev timer_op : AsyncOp ℕ
timer_op = record { name = timer_name; kind = deadline_timer 5; callback = functor 0 }

abbrev finishing_op : AsyncOp ℕ
finishing_op = record { name = []; kind = finish_op; callback = functor 0 }

unfoldable intercepted : MockedInterceptor ℕ
unfolding intercept try_cancel_on
intercepted =
    try_cancel_on (intercept 2 finishing_op (intercept 1 timer_op (record { shared_mock = [] })))

intercepted_test :
    intercepted.shared_mock
    ≡ MockCall.try_cancel
      ∷ MockCall.async_finish finishing_op
      ∷ MockCall.make_deadline_timer timer_op
      ∷ []
unfolding intercepted
intercepted_test = refl
