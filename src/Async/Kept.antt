-- ===== src/Async/Kept.antt =====
-- The result of a future stays.
use gee_h.Prelude.{ℕ, zero, suc, ◌≡◌, List, [], ◌∷◌, ◌++◌, Option, none, some, arith, length}
use gee_h.Effect.{Outcome, and_then, returns, throws, Completion, rpc_cancelled, grpc_error}
use gee_h.Queue.{got_event, register_op, run}
use gee_h.Async.{
  AsyncOp, Kind, async_rpc_op, create_async_rdwr_stream, writes_done_op, finish_op, Callback,
  functor, rpc_promise, stream_promise, writes_done_promise, finish_promise, Value, response,
  CompletionQueue, create_op, post, start, make_deadline_timer, make_relative_timer, async_rpc,
  async_create_rdwr_stream, async_write, async_read, async_writes_done, async_finish, with_promise,
  async_rpc_use_future, async_create_rdwr_stream_use_future, async_writes_done_use_future,
  async_finish_use_future,
}
use gee_h.Async.Calls.{
  promise_at, settle_at, settle, settle_rpc, settle_stream, settle_writes_done, settle_finish,
  call_back, call_back_maybe, report,
}
use gee_h.Async.History.{
  forget, relative_timer, rpc, rdwr_stream, write, read, writes_done, finish, rpc_future,
  rdwr_stream_future, writes_done_future, finish_future, Request, perform, timer,
}

promise_at-settle_at_other :
    {A : Type 0} (p r : ℕ) (a b : A) (ps : List (Option A))
    → promise_at p ps ≡ some b
    → promise_at r ps ≡ none
    → promise_at p (settle_at r a ps) ≡ some b
promise_at-settle_at_other p r a b [] h g = h
promise_at-settle_at_other zero zero a b (x ∷ ps) h g = absurd (ground arith)
promise_at-settle_at_other zero (suc r) a b (x ∷ ps) h g = h
promise_at-settle_at_other (suc p) zero a b (x ∷ ps) h g = h
promise_at-settle_at_other (suc p) (suc r) a b (x ∷ ps) h g =
    promise_at-settle_at_other p r a b ps h g

promise_at-append :
    {A : Type 0} (p : ℕ) (a : A) (ps : List (Option A))
    → promise_at p ps ≡ some a
    → promise_at p (ps ++ none ∷ []) ≡ some a
promise_at-append p a [] h = absurd (ground arith)
promise_at-append zero a (x ∷ ps) h = h
promise_at-append (suc p) a (x ∷ ps) h = promise_at-append p a ps h

module _ {Q R : Type 0} where
  settle-keeps :
      (p r : ℕ) (o x : Outcome (Value R)) (q : CompletionQueue Q R)
      → promise_at p q.promises ≡ some o
      → promise_at p (settle r x q).0.promises ≡ some o
  unfolding settle
  settle-keeps p r o x q h = ground (arith, promise_at-settle_at_other p r x o q.promises h)

  call_back_maybe-keeps :
      (p : ℕ) (o : Outcome (Value R)) (op : Option (AsyncOp Q)) (c : Completion R)
      (q : CompletionQueue Q R)
      → promise_at p q.promises ≡ some o
      → promise_at p (call_back_maybe op c q).0.promises ≡ some o
  unfolding call_back settle_rpc settle_stream settle_writes_done settle_finish
  call_back_maybe-keeps p o none c q h = h
  call_back_maybe-keeps p o (some op) c q h = go op.callback
    where
      go : (f : Callback) → promise_at p (call_back f c q).0.promises ≡ some o
      go (functor f) = h
      go (rpc_promise r) = ground (
        arith,
        settle-keeps p r o (returns (response c.response)) q h,
        settle-keeps p r o (throws (grpc_error c.status)) q h,
        settle-keeps p r o (throws rpc_cancelled) q h,
      )
      go (stream_promise r) = settle-keeps p r o _ q h
      go (writes_done_promise r) = settle-keeps p r o _ q h
      go (finish_promise r) = settle-keeps p r o _ q h

  start-keeps :
      (p t : ℕ) (o : Outcome (Value R)) (op : AsyncOp Q) (q : CompletionQueue Q R)
      → promise_at p q.promises ≡ some o
      → promise_at p (start t op q).0.promises ≡ some o
  unfolding start register_op post
  start-keeps p t o op q h = ground arith

  future-keeps :
      (p t : ℕ) (o : Outcome (Value R)) (name : List ℕ) (kind : Kind Q) (f : ℕ → Callback)
      (q : CompletionQueue Q R)
      → promise_at p q.promises ≡ some o
      → promise_at p
          (forget
            (with_promise (λ r. start t (record { name = name; kind = kind; callback = f r })))
            q).0.promises
        ≡ some o
  unfolding with_promise
  future-keeps p t o name kind f q h =
      let n = length q.promises in
      let d = record q { promises = q.promises ++ none ∷ [] } in
      go (start t (record { name = name; kind = kind; callback = f n }) d) (
        start-keeps p t o (record { name = name; kind = kind; callback = f n }) d
          (promise_at-append p o q.promises h))
    where
      go :
          (r : CompletionQueue Q R × Outcome (Unit {0}))
          → promise_at p r.0.promises ≡ some o
          → promise_at p
              (and_then
                (and_then r (λ _ s. (s, returns (length q.promises))))
                (λ _ s. (s, returns tt))).0.promises
            ≡ some o
      go (s, returns u) v = v
      go (s, throws e) v = v

  perform-keeps :
      (p t : ℕ) (o : Outcome (Value R)) (r : Request Q) (q : CompletionQueue Q R)
      → promise_at p q.promises ≡ some o
      → promise_at p (perform t r q).0.promises ≡ some o
  unfolding perform make_deadline_timer make_relative_timer async_rpc async_create_rdwr_stream
      async_write async_read async_writes_done async_finish async_rpc_use_future create_op
      async_create_rdwr_stream_use_future async_writes_done_use_future async_finish_use_future
  perform-keeps p t o (timer d name f) q h = start-keeps p t o _ q h
  perform-keeps p t o (relative_timer now d name f) q h = start-keeps p t o _ q h
  perform-keeps p t o (rpc x name f) q h = start-keeps p t o _ q h
  perform-keeps p t o (rdwr_stream name f) q h = start-keeps p t o _ q h
  perform-keeps p t o (write x name f) q h = start-keeps p t o _ q h
  perform-keeps p t o (read name f) q h = start-keeps p t o _ q h
  perform-keeps p t o (writes_done name f) q h = start-keeps p t o _ q h
  perform-keeps p t o (finish name f) q h = start-keeps p t o _ q h
  perform-keeps p t o (rpc_future x name) q h =
      future-keeps p t o name (async_rpc_op x) rpc_promise q h
  perform-keeps p t o (rdwr_stream_future name) q h =
      future-keeps p t o name create_async_rdwr_stream stream_promise q h
  perform-keeps p t o (writes_done_future name) q h =
      future-keeps p t o name writes_done_op writes_done_promise q h
  perform-keeps p t o (finish_future name) q h =
      future-keeps p t o name finish_op finish_promise q h

  -- Once a future has its result, no call of the program and no report changes it.
  pub result_kept :
      (q : CompletionQueue Q R) (p t : ℕ) (o : Outcome (Value R)) (r : Request Q) (c : Completion R)
      → promise_at p q.promises ≡ some o
      → (promise_at p (perform t r q).0.promises ≡ some o)
        × (promise_at p (report t c q).0.promises ≡ some o)
  unfolding report
  result_kept q p t o r c h =
      let (b, op) = run (got_event t c.ok) q.base in
      (perform-keeps p t o r q h, call_back_maybe-keeps p o op c (record q { base = b }) h)
