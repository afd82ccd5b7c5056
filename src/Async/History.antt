-- ===== src/Async/History.antt =====
-- The histories of a completion queue: the calls of the program, what gRPC reports, and the end.
use gee_h.Prelude.{ℕ, ◌≡◌, false, List}
use gee_h.Effect.{M, and_then, returns, Completion}
use gee_h.Queue.{
  Queue, Entry, find_op, holds, register_op, remove, run, run_next, unregister_op, timed_out,
  got_shutdown,
}
use gee_h.Queue as Base
use gee_h.Async.{
  functor, CompletionQueue, new, make_deadline_timer, make_relative_timer, async_rpc,
  async_create_rdwr_stream, async_write, async_read, async_writes_done, async_finish,
  async_rpc_use_future, async_create_rdwr_stream_use_future, async_writes_done_use_future,
  async_finish_use_future,
}
use gee_h.Async.Calls.{report}

-- The calls of the program, by their arguments.
pub data Request (Q : Type 0) : Type 0 where
  timer : ℕ → List ℕ → ℕ → Request Q
  relative_timer : ℕ → ℕ → List ℕ → ℕ → Request Q
  rpc : Q → List ℕ → ℕ → Request Q
  rdwr_stream : List ℕ → ℕ → Request Q
  write : Q → List ℕ → ℕ → Request Q
  read : List ℕ → ℕ → Request Q
  writes_done : List ℕ → ℕ → Request Q
  finish : List ℕ → ℕ → Request Q
  rpc_future : Q → List ℕ → Request Q
  rdwr_stream_future : List ℕ → Request Q
  writes_done_future : List ℕ → Request Q
  finish_future : List ℕ → Request Q

abbrev pub forget : {S A : Type 0} → M S A → M S (Unit {0})
forget m s = and_then (m s) (λ _ t. (t, returns tt))

unfoldable pub perform : {Q R : Type 0} → ℕ → Request Q → M (CompletionQueue Q R) (Unit {0})
perform t (timer deadline name f) = make_deadline_timer t deadline name (functor f)
perform t (relative_timer now d name f) = make_relative_timer t now d name (functor f)
perform t (rpc request name f) = async_rpc t request name (functor f)
perform t (rdwr_stream name f) = async_create_rdwr_stream t name (functor f)
perform t (write request name f) = async_write t request name (functor f)
perform t (read name f) = async_read t name (functor f)
perform t (writes_done name f) = async_writes_done t name (functor f)
perform t (finish name f) = async_finish t name (functor f)
perform t (rpc_future request name) = forget (async_rpc_use_future t request name)
perform t (rdwr_stream_future name) = forget (async_create_rdwr_stream_use_future t name)
perform t (writes_done_future name) = forget (async_writes_done_use_future t name)
perform t (finish_future name) = forget (async_finish_use_future t name)

-- The histories of a completion queue. The address of a new operation is not one of an operation in
-- flight.
pub data Reached {Q R : Type 0} : CompletionQueue Q R → Type 0 where
  created : Reached new
  performs :
      {q : CompletionQueue Q R} (t : ℕ) (r : Request Q)
      → holds t q.base.pending_ops ≡ false
      → Reached q
      → Reached (perform t r q).0
  reports :
      {q : CompletionQueue Q R} (t : ℕ) (c : Completion R) → Reached q → Reached (report t c q).0
  waits :
      {q : CompletionQueue Q R} → Reached q → Reached (record q { base = (run timed_out q.base).0 })
  ends :
      {q : CompletionQueue Q R}
      → Reached q
      → Reached (record q { base = (run got_shutdown q.base).0 })
  stops : {q : CompletionQueue Q R} → Reached q → Reached (record q { base = Base.shutdown q.base })
