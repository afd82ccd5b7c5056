-- ===== src/Async/Settled.antt =====
-- The result of a future is that of its operation, and stays.
use gee_h.Prelude.{
  ℕ, zero, suc, ◌<◌, ◌≡◌, refl, subst, false, List, [], ◌∷◌, Option, none, some, ◌==◌, arith,
  length, Bool-cases, inl, inr,
}
use gee_h.Effect.{
  Outcome, returns, throws, Completion, async_rpc_future, async_create_rdwr_stream_future,
  async_writes_done_future, async_finish_future, rpc_cancelled, stream_cancelled,
  writes_done_cancelled, finish_cancelled, grpc_error, called_after_shutdown,
}
use gee_h.Queue.{find_op, run, run_next, unregister_op}
use gee_h.Async.{
  AsyncOp, Callback, functor, rpc_promise, stream_promise, writes_done_promise, finish_promise,
  Value, response, stream, nothing, status, CompletionQueue,
}
use gee_h.Async.Calls.{
  promise_at, settle_at, settle, settle_rpc, settle_stream, settle_writes_done, settle_finish,
  call_back, report,
}
use gee_h.Async.History.{Reached}
use gee_h.Async.Counting.{waits_for, holding-remove}
use gee_h.Async.Futures.{IsExact, Reached-IsExact}

abbrev map_outcome : {A B : Type 0} → (A → B) → Outcome A → Outcome B
map_outcome f (returns a) = returns (f a)
map_outcome f (throws e) = throws e

-- The result that the other components take a blocking call to have.
abbrev pub expected : {R : Type 0} → Callback → Completion R → Outcome (Value R)
expected (functor f) c = throws called_after_shutdown
expected (rpc_promise p) c = map_outcome response (async_rpc_future c)
expected (stream_promise p) c = map_outcome (λ _. stream) (async_create_rdwr_stream_future c.ok)
expected (writes_done_promise p) c = map_outcome (λ _. nothing) (async_writes_done_future c.ok)
expected (finish_promise p) c = map_outcome status (async_finish_future c.ok c.status)

promise_at-settle_at :
    {A : Type 0} (p : ℕ) (a : A) (ps : List (Option A))
    → p < length ps
    → promise_at p (settle_at p a ps) ≡ some a
promise_at-settle_at p a [] h = absurd (omega arith)
promise_at-settle_at zero a (x ∷ ps) h = refl
promise_at-settle_at (suc p) a (x ∷ ps) h = promise_at-settle_at p a ps (omega arith)

module _ {Q R : Type 0} where
  -- The promise of a callback that is about to run is there and has no result.
  record IsOpen (p : ℕ) (q : CompletionQueue Q R) : Type 0 where
    free : promise_at p q.promises ≡ none
    there : p < length q.promises

  IsOpen-in_flight :
      (p t : ℕ) (op : AsyncOp Q) (q : CompletionQueue Q R)
      → IsExact p 0 q
      → find_op t q.base.pending_ops ≡ some op
      → waits_for p op.callback ≡ 1
      → IsOpen p q
  IsOpen-in_flight p t op q v f w = ground (arith, holding-remove p t q.base.pending_ops)

  record Done (p : ℕ) (o : Outcome (Value R)) (r : CompletionQueue Q R × Outcome (Unit {0}))
      : Type 0 where
    value : promise_at p r.0.promises ≡ some o
    quiet : r.1 ≡ returns tt

  settle-Done :
      (p : ℕ) (o : Outcome (Value R)) (q : CompletionQueue Q R)
      → IsOpen p q
      → Done p o (settle p o q)
  unfolding settle
  settle-Done p o q v = ground (arith, promise_at-settle_at p o q.promises)

  settle-Done_same :
      (p r : ℕ) (o : Outcome (Value R)) (q : CompletionQueue Q R)
      → IsOpen p q
      → waits_for p (rpc_promise r) ≡ 1
      → Done p o (settle r o q)
  settle-Done_same p r o q v w =
      let same : p ≡ r = ground arith in
      subst (λ x. Done p o (settle x o q)) same (settle-Done p o q v)

  call_back-Done :
      (p : ℕ) (f : Callback) (c : Completion R) (q : CompletionQueue Q R)
      → IsOpen p q
      → waits_for p f ≡ 1
      → Done p (expected f c) (call_back f c q)
  unfolding call_back settle_rpc settle_stream settle_writes_done settle_finish
  call_back-Done p (functor f) c q v w = absurd (omega arith)
  call_back-Done p (rpc_promise r) c q v w = elim (Bool-cases c.ok) [
    | inr cancelled ↦ rw cancelled (settle-Done_same p r (throws rpc_cancelled) q v w)
    | inl fine ↦ elim (Bool-cases (c.status == 0)) [
      | inl good ↦ rw (fine, good) (settle-Done_same p r (returns (response c.response)) q v w)
      | inr bad ↦ rw (fine, bad) (settle-Done_same p r (throws (grpc_error c.status)) q v w)
    ]
  ]
  call_back-Done p (stream_promise r) c q v w = elim (Bool-cases c.ok) [
    | inr cancelled ↦ rw cancelled (settle-Done_same p r (throws stream_cancelled) q v w)
    | inl fine ↦ rw fine (settle-Done_same p r (returns stream) q v w)
  ]
  call_back-Done p (writes_done_promise r) c q v w = elim (Bool-cases c.ok) [
    | inr cancelled ↦ rw cancelled (settle-Done_same p r (throws writes_done_cancelled) q v w)
    | inl fine ↦ rw fine (settle-Done_same p r (returns nothing) q v w)
  ]
  call_back-Done p (finish_promise r) c q v w = elim (Bool-cases c.ok) [
    | inr cancelled ↦ rw cancelled (settle-Done_same p r (throws finish_cancelled) q v w)
    | inl fine ↦ rw fine (settle-Done_same p r (returns (status c.status)) q v w)
  ]

  -- When the running loop is told of an operation of a future, the future gets the result that the
  -- components take such a blocking call to have, and no callback throws because the promise had a
  -- result before.
  pub report_settles :
      (q : CompletionQueue Q R) (t p : ℕ) (op : AsyncOp Q) (c : Completion R)
      → Reached q
      → q.base.ended ≡ false
      → q.base.shutdown ≡ false
      → 0 < t
      → find_op t q.base.pending_ops ≡ some op
      → waits_for p op.callback ≡ 1
      → (promise_at p (report t c q).0.promises ≡ some (expected op.callback c))
        × ((report t c q).1 ≡ returns tt)
  unfolding report run run_next unregister_op
  report_settles q t p op c l e s h f w =
      let v = IsOpen-in_flight p t op q (Reached-IsExact p l) f w in
      let not_null : (t == 0) ≡ false = ground arith in
      simp (e, s, not_null, f)
        (let d =
            call_back-Done p op.callback c (record q { base = _ })
              (record { free = v.free; there = v.there }) w in
          (d.value, d.quiet))
