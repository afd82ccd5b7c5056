-- ===== src/Async/Tests.antt =====
-- A queue on which a call with a future and a write with a functor are started and reported.
use gee_h.Prelude.{ℕ, ◌+◌, ◌≡◌, refl, true, [], ◌∷◌, some, arith}
use gee_h.Effect.{throws, grpc_error, Completion}
use gee_h.Queue.{register_op, run, run_next, unregister_op, remove, find_op}
use gee_h.Queue as Base
use gee_h.Async.{
  CompletionQueue, AsyncOp, async_rpc_op, rpc_promise, new, start, post, create_op, with_promise,
  async_rpc, async_write, async_rpc_use_future,
}
use gee_h.Async.Calls.{promise_at, report, call_back, settle_rpc, settle}
use gee_h.Async.History.{rpc_future, write, perform, Reached, created, performs}
use gee_h.Async.Counting.{holding, settled}
use gee_h.Async.Futures.{future_once}
use gee_h.Async.Settled.{report_settles}
use gee_h.Async.Kept.{result_kept}

abbrev empty : CompletionQueue ℕ ℕ
empty = new

asked : CompletionQueue ℕ ℕ
unfolding new Base.new perform async_rpc_use_future with_promise async_rpc create_op start
    register_op post async_write
asked = (perform 5 (write 3 [] 1) (perform 4 (rpc_future 7 []) empty).0).0

asked-Reached : Reached asked
unfolding asked
asked-Reached = performs 5 (write 3 [] 1) refl (performs 4 (rpc_future 7 []) refl created)

abbrev failed : Completion ℕ
failed = record { ok = true; status = 14; response = 0 }

answered : CompletionQueue ℕ ℕ
unfolding asked report run run_next unregister_op remove call_back settle_rpc settle
answered = (report 4 failed asked).0

answered_test : answered.promises ≡ some (throws (grpc_error 14)) ∷ []
unfolding answered
answered_test = refl

future_once_example : holding 0 asked.base.pending_ops + settled 0 asked.promises ≡ 1
unfolding asked
future_once_example = future_once asked 0 asked-Reached (omega arith)

abbrev question : AsyncOp ℕ
question = record { name = []; kind = async_rpc_op 7; callback = rpc_promise 0 }

report_settles_example :
    promise_at 0 (report 4 failed asked).0.promises ≡ some (throws (grpc_error 14))
unfolding asked
report_settles_example =
    (report_settles asked 4 0 question failed asked-Reached refl refl (omega arith) refl refl).0

result_kept_test :
    promise_at 0 (report 5 failed answered).0.promises ≡ some (throws (grpc_error 14))
unfolding answered
result_kept_test = (result_kept answered 0 5 (throws (grpc_error 14)) (write 2 [] 1) failed refl).1
