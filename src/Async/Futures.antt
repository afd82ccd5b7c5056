-- ===== src/Async/Futures.antt =====
-- Every future of the completion queue against the operations in flight.
use gee_h.Prelude.{
  ℕ, ◌+◌, ◌<◌, ◌≡◌, refl, sym, subst, false, List, [], ◌∷◌, ◌++◌, Option, none, some, if◌then◌else◌,
  ◌==◌, arith, length, length-append,
}
use gee_h.Effect.{M, Outcome, and_then, returns, throws, Completion, rpc_cancelled, grpc_error}
use gee_h.Queue.{
  Next, got_event, Queue, Entry, find_op, holds, register_op, remove, run, run_next, unregister_op,
  timed_out, got_shutdown,
}
use gee_h.Queue as Base
use gee_h.Async.{
  AsyncOp, Kind, async_rpc_op, create_async_rdwr_stream, writes_done_op, finish_op, Callback,
  functor, rpc_promise, stream_promise, writes_done_promise, finish_promise, Value, response,
  CompletionQueue, new, create_op, post, start, make_deadline_timer, make_relative_timer, async_rpc,
  async_create_rdwr_stream, async_write, async_read, async_writes_done, async_finish, with_promise,
  async_rpc_use_future, async_create_rdwr_stream_use_future, async_writes_done_use_future,
  async_finish_use_future,
}
use gee_h.Async.Calls.{
  settle, settle_rpc, settle_stream, settle_writes_done, settle_finish, call_back, call_back_maybe,
  report,
}
use gee_h.Async.History.{
  forget, relative_timer, rpc, rdwr_stream, write, read, writes_done, finish, rpc_future,
  rdwr_stream_future, writes_done_future, finish_future, Request, perform, Reached, created,
  performs, reports, waits, ends, stops, timer,
}
use gee_h.Async.Counting.{
  waits_for, holding, settled, made, waiting, holding-run, settled-settle_at, length-settle_at,
  settled-append,
}

module _ {Q R : Type 0} where
  -- With `n` operations for the promise `p` on their way besides those in flight.
  pub record IsExact (p n : ℕ) (q : CompletionQueue Q R) : Type 0 where
    pub exact : n + (holding p q.base.pending_ops + settled p q.promises) ≡ made p q.promises

  settle-IsExact :
      (p r : ℕ) (o : Outcome (Value R)) (q : CompletionQueue Q R)
      → IsExact p (if r == p then 1 else 0) q
      → IsExact p 0 (settle r o q).0
  unfolding settle
  settle-IsExact p r o q v =
      ground (arith, settled-settle_at p r o q.promises, length-settle_at r o q.promises)

  call_back-IsExact :
      (p : ℕ) (f : Callback) (c : Completion R) (q : CompletionQueue Q R)
      → IsExact p (waits_for p f) q
      → IsExact p 0 (call_back f c q).0
  unfolding call_back settle_rpc settle_stream settle_writes_done settle_finish
  call_back-IsExact p (functor f) c q v = record { exact = v.exact }
  call_back-IsExact p (rpc_promise r) c q v = ground (
    arith,
    settle-IsExact p r (returns (response c.response)) q v,
    settle-IsExact p r (throws (grpc_error c.status)) q v,
    settle-IsExact p r (throws rpc_cancelled) q v,
  )
  call_back-IsExact p (stream_promise r) c q v = settle-IsExact p r _ q v
  call_back-IsExact p (writes_done_promise r) c q v = settle-IsExact p r _ q v
  call_back-IsExact p (finish_promise r) c q v = settle-IsExact p r _ q v

  call_back_maybe-IsExact :
      (p : ℕ) (op : Option (AsyncOp Q)) (c : Completion R) (q : CompletionQueue Q R)
      → IsExact p (waiting p op) q
      → IsExact p 0 (call_back_maybe op c q).0
  call_back_maybe-IsExact p none c q v = v
  call_back_maybe-IsExact p (some op) c q v = call_back-IsExact p op.callback c q v

  run-IsExact :
      (p : ℕ) (next : Next) (q : CompletionQueue Q R)
      → IsExact p 0 q
      → IsExact p (waiting p (run next q.base).1) (record q { base = (run next q.base).0 })
  run-IsExact p next q v = record { exact = omega (arith, v.exact, holding-run p next q.base) }

  report-IsExact :
      (p t : ℕ) (c : Completion R) (q : CompletionQueue Q R)
      → IsExact p 0 q
      → IsExact p 0 (report t c q).0
  unfolding report
  report-IsExact p t c q v =
      let (b, op) = run (got_event t c.ok) q.base in
      call_back_maybe-IsExact p op c (record q { base = b }) (run-IsExact p (got_event t c.ok) q v)

  start-IsExact :
      (p t : ℕ) (op : AsyncOp Q) (q : CompletionQueue Q R)
      → holds t q.base.pending_ops ≡ false
      → IsExact p (waits_for p op.callback) q
      → IsExact p 0 (start t op q).0
  unfolding start register_op post
  start-IsExact p t op q h v = ground arith

  promised-IsExact :
      (p : ℕ) (q : CompletionQueue Q R)
      → IsExact p 0 q
      → IsExact p
          (if length q.promises == p then 1 else 0)
          (record q { promises = q.promises ++ none ∷ [] })
  promised-IsExact p q v = record {
    exact =
        ground (arith, v.exact, settled-append p q.promises, length-append q.promises (none ∷ []));
  }

  dropped :
      {A : Type 0} (r : CompletionQueue Q R × Outcome (Unit {0}))
      (k : Unit {0} → M (CompletionQueue Q R) A)
      → ((q : CompletionQueue Q R) → (k tt q).0 ≡ q)
      → (and_then r k).0 ≡ r.0
  dropped (q, returns u) k h = h q
  dropped (q, throws e) k h = refl

  with_promise-IsExact :
      (p t : ℕ) (f : ℕ → AsyncOp Q) (q : CompletionQueue Q R)
      → holds t q.base.pending_ops ≡ false
      → ((r : ℕ) → waits_for p (f r).callback ≡ (if r == p then 1 else 0))
      → IsExact p 0 q
      → IsExact p 0 (with_promise (λ r. start t (f r)) q).0
  unfolding with_promise
  with_promise-IsExact p t f q h w v =
      let d = record q { promises = q.promises ++ none ∷ [] } in
      let n = length q.promises in
      subst (IsExact p 0) (sym (dropped (start t (f n) d) (λ _ s. (s, returns n)) (λ s. refl))) (
        start-IsExact p t (f n) d h
          (subst (λ x. IsExact p x d) (sym (w n)) (promised-IsExact p q v)))

  future-IsExact :
      (p t : ℕ) (name : List ℕ) (kind : Kind Q) (f : ℕ → Callback) (q : CompletionQueue Q R)
      → holds t q.base.pending_ops ≡ false
      → ((r : ℕ) → waits_for p (f r) ≡ (if r == p then 1 else 0))
      → IsExact p 0 q
      → IsExact p 0
          (forget
            (with_promise (λ r. start t (record { name = name; kind = kind; callback = f r })))
            q).0
  future-IsExact p t name kind f q h w v =
      let op : ℕ → AsyncOp Q = λ r. record { name = name; kind = kind; callback = f r } in
      go (with_promise (λ r. start t (op r)) q) (with_promise-IsExact p t op q h w v)
    where
      go :
          (r : CompletionQueue Q R × Outcome ℕ)
          → IsExact p 0 r.0
          → IsExact p 0 (and_then r (λ _ s. (s, returns tt))).0
      go (s, returns a) v = v
      go (s, throws e) v = v

  perform-IsExact :
      (p t : ℕ) (r : Request Q) (q : CompletionQueue Q R)
      → holds t q.base.pending_ops ≡ false
      → IsExact p 0 q
      → IsExact p 0 (perform t r q).0
  unfolding perform make_deadline_timer make_relative_timer async_rpc async_create_rdwr_stream
      async_write async_read async_writes_done async_finish async_rpc_use_future create_op
      async_create_rdwr_stream_use_future async_writes_done_use_future async_finish_use_future
  perform-IsExact p t (timer d name f) q h v = start-IsExact p t _ q h v
  perform-IsExact p t (relative_timer now d name f) q h v = start-IsExact p t _ q h v
  perform-IsExact p t (rpc x name f) q h v = start-IsExact p t _ q h v
  perform-IsExact p t (rdwr_stream name f) q h v = start-IsExact p t _ q h v
  perform-IsExact p t (write x name f) q h v = start-IsExact p t _ q h v
  perform-IsExact p t (read name f) q h v = start-IsExact p t _ q h v
  perform-IsExact p t (writes_done name f) q h v = start-IsExact p t _ q h v
  perform-IsExact p t (finish name f) q h v = start-IsExact p t _ q h v
  perform-IsExact p t (rpc_future x name) q h v =
      future-IsExact p t name (async_rpc_op x) rpc_promise q h (λ r. refl) v
  perform-IsExact p t (rdwr_stream_future name) q h v =
      future-IsExact p t name create_async_rdwr_stream stream_promise q h (λ r. refl) v
  perform-IsExact p t (writes_done_future name) q h v =
      future-IsExact p t name writes_done_op writes_done_promise q h (λ r. refl) v
  perform-IsExact p t (finish_future name) q h v =
      future-IsExact p t name finish_op finish_promise q h (λ r. refl) v

  pub Reached-IsExact : (p : ℕ) {q : CompletionQueue Q R} → Reached q → IsExact p 0 q
  unfolding new Base.new Base.shutdown run run_next
  Reached-IsExact p created = record { exact = ground arith }
  Reached-IsExact p (performs {q} t r h l) = perform-IsExact p t r q h (Reached-IsExact p l)
  Reached-IsExact p (reports {q} t c l) = report-IsExact p t c q (Reached-IsExact p l)
  Reached-IsExact p (waits {q} l) = record { exact = ground (arith, Reached-IsExact p l) }
  Reached-IsExact p (ends {q} l) = record { exact = ground (arith, Reached-IsExact p l) }
  Reached-IsExact p (stops l) = record { exact = (Reached-IsExact p l).exact }

  -- In every history each future that was given out either waits for exactly one operation in
  -- flight, or has its result and no operation in flight would set it again.
  pub future_once :
      (q : CompletionQueue Q R) (p : ℕ)
      → Reached q
      → p < length q.promises
      → holding p q.base.pending_ops + settled p q.promises ≡ 1
  future_once q p l h = ground (arith, Reached-IsExact p l)
