-- ===== src/Async/Scenarios.antt =====
-- gh/detail/mocked_grpc_interceptor_ut.cpp on the model: operations that are started on a completion
-- queue, and whose callbacks the mock calls. The mock does not go through the queue's loop, so the
-- operation stays registered.
use gee_h.Prelude.{ℕ, ◌+◌, ◌≡◌, refl, Bool, true, false, List, [], ◌∷◌, none, some, if◌then◌else◌}
use gee_h.Effect.{
  returns, throws, rpc_cancelled, stream_cancelled, writes_done_cancelled, finish_cancelled,
  grpc_error, Completion,
}
use gee_h.Etcd.{LeaseGrantRequest, LeaseGrantResponse}
use gee_h.Queue.{find_op, register_op}
use gee_h.Queue as Base
use gee_h.Async.{
  CompletionQueue, functor, response, stream, nothing, status, FunctorCall, new, create_op, post,
  start, with_promise, make_deadline_timer, make_relative_timer, async_rpc,
  async_create_rdwr_stream, async_write, async_read, async_writes_done, async_finish,
  async_rpc_use_future, async_create_rdwr_stream_use_future, async_writes_done_use_future,
  async_finish_use_future,
}
use gee_h.Async.Calls.{
  call_back, call_back_maybe, settle, settle_rpc, settle_stream, settle_writes_done, settle_finish,
}

abbrev Mocked : Type 0
Mocked = CompletionQueue LeaseGrantRequest LeaseGrantResponse

abbrev request : LeaseGrantRequest
request = record { id = 0; ttl = 5 }

abbrev answer : LeaseGrantResponse
answer = record { id = 123456; ttl = 7; error = [] }

abbrev completion : Bool → ℕ → Completion LeaseGrantResponse
completion ok code = record { ok = ok; status = code; response = answer }

-- `bop->callback(*bop, ok)`, for the operation under a tag.
unfoldable mocked : ℕ → Completion LeaseGrantResponse → Mocked → Mocked
unfolding call_back settle settle_rpc settle_stream settle_writes_done settle_finish
mocked t c q = (call_back_maybe (find_op t q.base.pending_ops) c q).0

-- What the counters of the tests count: the calls with this `ok`.
abbrev equal : Bool → Bool → Bool
equal true b = b
equal false true = false
equal false false = true

abbrev count : Bool → List (FunctorCall LeaseGrantResponse) → ℕ
count ok [] = 0
count ok (x ∷ xs) = (if equal ok x.completion.ok then 1 else 0) + count ok xs

-- `TEST(deadline_timer)`: one timer expires, another one is cancelled.
unfoldable timer_expired : Mocked
unfolding new Base.new make_relative_timer make_deadline_timer start create_op register_op post
    mocked
timer_expired =
    mocked 1 (completion true 0) (make_relative_timer 1 0 100 (b'r' ∷ []) (functor 0) new).0

unfoldable timer_cancelled : Mocked
unfolding timer_expired make_deadline_timer start create_op register_op post mocked
timer_cancelled =
    mocked 2 (completion false 0)
      (make_deadline_timer 2 100 (b'd' ∷ []) (functor 0) timer_expired).0

deadline_timer_test :
    (count true timer_expired.called ≡ 1)
    × (count false timer_expired.called ≡ 0)
    × (count true timer_cancelled.called ≡ 1)
    × (count false timer_cancelled.called ≡ 1)
unfolding timer_expired timer_cancelled
deadline_timer_test = (refl, refl, refl, refl)

-- `TEST(async_rpc)`, before and after the callback; then `TEST(async_rpc_cancelled)` and
-- `TEST(async_rpc_failed)`.
unfoldable rpc_started : Mocked
unfolding new Base.new async_rpc_use_future with_promise async_rpc start create_op register_op post
rpc_started = (async_rpc_use_future 1 request (b'f' ∷ []) new).0

unfoldable rpc_done : Mocked
unfolding rpc_started mocked
rpc_done = mocked 1 (completion true 0) rpc_started

unfoldable rpc_aborted : Mocked
unfolding rpc_started mocked
rpc_aborted = mocked 1 (completion false 0) rpc_started

unfoldable rpc_failed : Mocked
unfolding rpc_started mocked
rpc_failed = mocked 1 (completion true 2) rpc_started

async_rpc_test :
    (rpc_started.promises ≡ none ∷ [])
    × (rpc_done.promises ≡ some (returns (response answer)) ∷ [])
    × (rpc_aborted.promises ≡ some (throws rpc_cancelled) ∷ [])
    × (rpc_failed.promises ≡ some (throws (grpc_error 2)) ∷ [])
unfolding rpc_started rpc_done rpc_aborted rpc_failed
async_rpc_test = (refl, refl, refl, refl)

-- `TEST(create_rdwr_stream_future)`: one stream is created, another one is cancelled.
unfoldable streams_created : Mocked
unfolding new Base.new async_create_rdwr_stream_use_future with_promise async_create_rdwr_stream
    start register_op post mocked
streams_created =
    let first = mocked 1 (completion true 0) (async_create_rdwr_stream_use_future 1 [] new).0 in
    mocked 2 (completion false 0) (async_create_rdwr_stream_use_future 2 [] first).0

streams_test :
    streams_created.promises ≡ some (returns stream) ∷ some (throws stream_cancelled) ∷ []
unfolding streams_created
streams_test = refl

-- `TEST(rdwr_stream_writes_done_future)` and `TEST(rdwr_stream_finish_future)`
unfoldable writes_done_twice : Mocked
unfolding new Base.new async_writes_done_use_future with_promise async_writes_done start create_op
    register_op post mocked
writes_done_twice =
    let first = mocked 1 (completion true 0) (async_writes_done_use_future 1 [] new).0 in
    mocked 2 (completion false 0) (async_writes_done_use_future 2 [] first).0

unfoldable finished_twice : Mocked
unfolding new Base.new async_finish_use_future with_promise async_finish start create_op register_op
    post mocked
finished_twice =
    let first = mocked 1 (completion true 0) (async_finish_use_future 1 [] new).0 in
    mocked 2 (completion false 0) (async_finish_use_future 2 [] first).0

futures_test :
    (writes_done_twice.promises ≡ some (returns nothing) ∷ some (throws writes_done_cancelled) ∷ [])
    × (finished_twice.promises ≡ some (returns (status 0)) ∷ some (throws finish_cancelled) ∷ [])
unfolding writes_done_twice finished_twice
futures_test = (refl, refl)

-- The tests of the functions with a functor: stream, write, read, writes done, finish.
unfoldable stream_called : Mocked
unfolding new Base.new async_create_rdwr_stream start register_op post mocked
stream_called = mocked 1 (completion true 0) (async_create_rdwr_stream 1 [] (functor 0) new).0

unfoldable write_called : Mocked
unfolding new Base.new async_write start create_op register_op post mocked
write_called = mocked 1 (completion true 0) (async_write 1 request [] (functor 0) new).0

unfoldable read_called : Mocked
unfolding new Base.new async_read start create_op register_op post mocked
read_called = mocked 1 (completion true 0) (async_read 1 [] (functor 0) new).0

unfoldable writes_done_called : Mocked
unfolding new Base.new async_writes_done start create_op register_op post mocked
writes_done_called = mocked 1 (completion true 0) (async_writes_done 1 [] (functor 0) new).0

unfoldable finish_called : Mocked
unfolding new Base.new async_finish start create_op register_op post mocked
finish_called = mocked 1 (completion true 0) (async_finish 1 [] (functor 0) new).0

functors_test :
    (count true stream_called.called ≡ 1)
    × (count true write_called.called ≡ 1)
    × (count true read_called.called ≡ 1)
    × (count true writes_done_called.called ≡ 1)
    × (count true finish_called.called ≡ 1)
unfolding stream_called write_called read_called writes_done_called finish_called
functors_test = (refl, refl, refl, refl, refl)
