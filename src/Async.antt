-- ===== src/Async.antt =====
-- gh/completion_queue.hpp over gh/detail/default_grpc_interceptor.hpp: the operations that a program
-- starts on a completion queue, with a functor or with a future, and what their callbacks do.
pub mod Calls
pub mod History
pub mod Counting
pub mod Futures
pub mod Settled
pub mod Kept
pub mod Timers
pub mod Mocked
mod Scenarios
mod LoopScenarios
mod Tests
use gee_h.Prelude.{
  ℕ, zero, suc, ◌+◌, List, [], ◌∷◌, ◌++◌, Option, none, some, Bool, true, false, length,
}
use gee_h.Effect.{
  M, Outcome, and_then, ◌>>=◌, ◌>>◌, pure, modify, returns, throws, promise_already_satisfied,
  Completion, async_rpc_future, async_create_rdwr_stream_future, async_writes_done_future,
  async_finish_future,
}
use gee_h.Queue.{Queue, register_op}
use gee_h.Queue as Base

-- The kinds of operations, with what the caller gives each; requests are of type `Q`.
pub data Kind (Q : Type 0) : Type 0 where
  deadline_timer : ℕ → Kind Q
  async_rpc_op : Q → Kind Q
  create_async_rdwr_stream : Kind Q
  write_op : Q → Kind Q
  read_op : Kind Q
  writes_done_op : Kind Q
  finish_op : Kind Q

-- A callback: a functor of the caller, known by a number, or the lambda of one of the four
-- functions that give a future, with the number of its promise.
pub data Callback : Type 0 where
  functor : ℕ → Callback
  rpc_promise stream_promise writes_done_promise finish_promise : ℕ → Callback

pub record AsyncOp (Q : Type 0) : Type 0 where
  pub name : List ℕ
  pub kind : Kind Q
  pub callback : Callback

-- What a future brings.
pub data Value (R : Type 0) : Type 0 where
  response : R → Value R
  stream : Value R
  nothing : Value R
  status : ℕ → Value R

-- One call of a functor, with what gRPC has written into the operation.
pub record FunctorCall (R : Type 0) : Type 0 where
  pub functor : ℕ
  pub completion : Completion R

-- What is handed to gRPC: an operation with its tag.
pub record Post (Q : Type 0) : Type 0 where
  pub tag : ℕ
  pub kind : Kind Q

-- The object, the shared states of the promises of its futures by their numbers, and what the
-- functors and gRPC were called with.
pub record CompletionQueue (Q R : Type 0) : Type 0 where
  pub base : Queue (AsyncOp Q)
  pub promises : List (Option (Outcome (Value R)))
  pub called : List (FunctorCall R)
  pub posted : List (Post Q)

unfoldable pub new : {Q R : Type 0} → CompletionQueue Q R
new = record { base = Base.new; promises = []; called = []; posted = [] }

unfoldable pub create_op : {Q : Type 0} → List ℕ → Kind Q → Callback → AsyncOp Q
create_op name kind f = record { name = name; kind = kind; callback = f }

-- The interceptor hands each kind of operation to gRPC, with its tag.
unfoldable pub post : {Q R : Type 0} → ℕ → AsyncOp Q → CompletionQueue Q R → CompletionQueue Q R
post t op q = record q { posted = record { tag = t; kind = op.kind } ∷ q.posted }

-- What the functions below share: register the operation at the address `t`, then hand it to gRPC.
unfoldable pub start : {Q R : Type 0} → ℕ → AsyncOp Q → M (CompletionQueue Q R) (Unit {0})
unfolding register_op post
start t op q =
    let (b, r) = register_op t op q.base in
    and_then (record q { base = b }, r) (λ _. modify (post t op))

module _ {Q R : Type 0} where
  unfoldable pub make_deadline_timer :
      ℕ → ℕ → List ℕ → Callback → M (CompletionQueue Q R) (Unit {0})
  unfolding start create_op
  make_deadline_timer t deadline name f = start t (create_op name (deadline_timer deadline) f)

  -- `now` is the time that the system clock gives.
  unfoldable pub make_relative_timer :
      ℕ → ℕ → ℕ → List ℕ → Callback → M (CompletionQueue Q R) (Unit {0})
  unfolding make_deadline_timer
  make_relative_timer t now duration name f = make_deadline_timer t (now + duration) name f

  unfoldable pub async_rpc : ℕ → Q → List ℕ → Callback → M (CompletionQueue Q R) (Unit {0})
  unfolding start create_op
  async_rpc t request name f = start t (create_op name (async_rpc_op request) f)

  unfoldable pub async_create_rdwr_stream :
      ℕ → List ℕ → Callback → M (CompletionQueue Q R) (Unit {0})
  unfolding start
  async_create_rdwr_stream t name f =
      start t (record { name = name; kind = create_async_rdwr_stream; callback = f })

  unfoldable pub async_write : ℕ → Q → List ℕ → Callback → M (CompletionQueue Q R) (Unit {0})
  unfolding start create_op
  async_write t request name f = start t (create_op name (write_op request) f)

  unfoldable pub async_read : ℕ → List ℕ → Callback → M (CompletionQueue Q R) (Unit {0})
  unfolding start create_op
  async_read t name f = start t (create_op name read_op f)

  unfoldable pub async_writes_done : ℕ → List ℕ → Callback → M (CompletionQueue Q R) (Unit {0})
  unfolding start create_op
  async_writes_done t name f = start t (create_op name writes_done_op f)

  unfoldable pub async_finish : ℕ → List ℕ → Callback → M (CompletionQueue Q R) (Unit {0})
  unfolding start create_op
  async_finish t name f = start t (create_op name finish_op f)

  -- A function that gives a future: it makes a promise, starts the operation with a lambda that
  -- holds the promise, and returns the promise's number.
  unfoldable pub with_promise : (ℕ → M (CompletionQueue Q R) (Unit {0})) → M (CompletionQueue Q R) ℕ
  with_promise start q =
      let p = length q.promises in
      (start p >>= λ _. pure p) (record q { promises = q.promises ++ none ∷ [] })

  unfoldable pub async_rpc_use_future : ℕ → Q → List ℕ → M (CompletionQueue Q R) ℕ
  unfolding with_promise async_rpc
  async_rpc_use_future t request name = with_promise λ p. async_rpc t request name (rpc_promise p)

  unfoldable pub async_create_rdwr_stream_use_future : ℕ → List ℕ → M (CompletionQueue Q R) ℕ
  unfolding with_promise async_create_rdwr_stream
  async_create_rdwr_stream_use_future t name =
      with_promise λ p. async_create_rdwr_stream t name (stream_promise p)

  unfoldable pub async_writes_done_use_future : ℕ → List ℕ → M (CompletionQueue Q R) ℕ
  unfolding with_promise async_writes_done
  async_writes_done_use_future t name =
      with_promise λ p. async_writes_done t name (writes_done_promise p)

  unfoldable pub async_finish_use_future : ℕ → List ℕ → M (CompletionQueue Q R) ℕ
  unfolding with_promise async_finish
  async_finish_use_future t name = with_promise λ p. async_finish t name (finish_promise p)
