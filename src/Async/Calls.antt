-- ===== src/Async/Calls.antt =====
-- What the callbacks of the completion queue do with a promise or a functor.
use gee_h.Prelude.{ℕ, zero, suc, List, [], ◌∷◌, Option, none, some, if◌then◌else◌, ◌==◌}
use gee_h.Effect.{
  M, Outcome, returns, throws, promise_already_satisfied, rpc_cancelled, stream_cancelled,
  writes_done_cancelled, finish_cancelled, grpc_error, Completion,
}
use gee_h.Queue.{got_event, run}
use gee_h.Async.{
  AsyncOp, Callback, functor, rpc_promise, stream_promise, writes_done_promise, finish_promise,
  Value, response, stream, nothing, status, CompletionQueue,
}

abbrev pub promise_at : {A : Type 0} → ℕ → List (Option A) → Option A
promise_at i [] = none
promise_at zero (p ∷ ps) = p
promise_at (suc i) (p ∷ ps) = promise_at i ps

abbrev pub settle_at : {A : Type 0} → ℕ → A → List (Option A) → List (Option A)
settle_at i a [] = []
settle_at zero a (p ∷ ps) = some a ∷ ps
settle_at (suc i) a (p ∷ ps) = p ∷ settle_at i a ps

module _ {Q R : Type 0} where
  -- `set_value` and `set_exception`: a promise is satisfied once.
  unfoldable pub settle : ℕ → Outcome (Value R) → M (CompletionQueue Q R) (Unit {0})
  settle p o q = elim (promise_at p q.promises) [
    | none ↦ (record q { promises = settle_at p o q.promises }, returns tt)
    | some _ ↦ (q, throws promise_already_satisfied)
  ]

  -- The lambdas, by the functions that make them.
  unfoldable pub settle_rpc : ℕ → Completion R → M (CompletionQueue Q R) (Unit {0})
  unfolding settle
  settle_rpc p c =
      if c.ok
      then (if c.status == 0
          then settle p (returns (response c.response))
          else settle p (throws (grpc_error c.status)))
      else settle p (throws rpc_cancelled)

  unfoldable pub settle_stream : ℕ → Completion R → M (CompletionQueue Q R) (Unit {0})
  unfolding settle
  settle_stream p c = settle p (if c.ok then returns stream else throws stream_cancelled)

  unfoldable pub settle_writes_done : ℕ → Completion R → M (CompletionQueue Q R) (Unit {0})
  unfolding settle
  settle_writes_done p c = settle p (if c.ok then returns nothing else throws writes_done_cancelled)

  unfoldable pub settle_finish : ℕ → Completion R → M (CompletionQueue Q R) (Unit {0})
  unfolding settle
  settle_finish p c = settle p (if c.ok then returns (status c.status) else throws finish_cancelled)

  -- `op->callback(*op, ok)`.
  unfoldable pub call_back : Callback → Completion R → M (CompletionQueue Q R) (Unit {0})
  unfolding settle_rpc settle_stream settle_writes_done settle_finish
  call_back (functor f) c q =
      (record q { called = record { functor = f; completion = c } ∷ q.called }, returns tt)
  call_back (rpc_promise p) c q = settle_rpc p c q
  call_back (stream_promise p) c q = settle_stream p c q
  call_back (writes_done_promise p) c q = settle_writes_done p c q
  call_back (finish_promise p) c q = settle_finish p c q

  abbrev pub call_back_maybe :
      Option (AsyncOp Q) → Completion R → M (CompletionQueue Q R) (Unit {0})
  call_back_maybe none c q = (q, returns tt)
  call_back_maybe (some op) c q = call_back op.callback c q

  -- A round of the loop in which gRPC reports the operation under the tag `t`, after it has written
  -- the status and the response into it.
  unfoldable pub report : ℕ → Completion R → M (CompletionQueue Q R) (Unit {0})
  unfolding run
  report t c q =
      let (b, op) = run (got_event t c.ok) q.base in call_back_maybe op c (record q { base = b })
