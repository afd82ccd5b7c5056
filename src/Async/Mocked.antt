-- ===== src/Async/Mocked.antt =====
-- gh/detail/mocked_grpc_interceptor.hpp: an interceptor that hands every operation to a mock, and
-- nothing to gRPC.
use gee_h.Prelude.{ℕ, List, ◌∷◌}
use gee_h.Async.{
  Kind, deadline_timer, async_rpc_op, create_async_rdwr_stream, write_op, read_op, writes_done_op,
  finish_op, AsyncOp,
}

-- The methods of the mock, each called with the operation.
pub data MockCall (Q : Type 0) : Type 0 where
  make_deadline_timer async_rpc async_create_rdwr_stream : AsyncOp Q → MockCall Q
  async_write async_read async_writes_done async_finish : AsyncOp Q → MockCall Q
  try_cancel : MockCall Q

-- `shared_mock`, as the list of its calls so far, the last one first.
pub record MockedInterceptor (Q : Type 0) : Type 0 where
  pub shared_mock : List (MockCall Q)

abbrev record_call : {Q : Type 0} → MockCall Q → MockedInterceptor Q → MockedInterceptor Q
record_call c m = record { shared_mock = c ∷ m.shared_mock }

-- The method for an operation of this kind.
abbrev pub mock_call : {Q : Type 0} → Kind Q → AsyncOp Q → MockCall Q
mock_call (deadline_timer deadline) op = make_deadline_timer op
mock_call (async_rpc_op request) op = async_rpc op
mock_call create_async_rdwr_stream op = async_create_rdwr_stream op
mock_call (write_op request) op = async_write op
mock_call read_op op = async_read op
mock_call writes_done_op op = async_writes_done op
mock_call finish_op op = async_finish op

-- The function of the interceptor that `completion_queue` calls with an operation and its tag, which
-- is dropped like the stub and the queue.
unfoldable pub intercept : {Q : Type 0} → ℕ → AsyncOp Q → MockedInterceptor Q → MockedInterceptor Q
intercept t op m = record_call (mock_call op.kind op) m

unfoldable pub try_cancel_on : {Q : Type 0} → MockedInterceptor Q → MockedInterceptor Q
try_cancel_on m = record_call try_cancel m
