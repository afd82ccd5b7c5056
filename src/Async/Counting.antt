-- ===== src/Async/Counting.antt =====
-- How many operations in flight hold a promise, and whether it has its result, as numbers.
use gee_h.Prelude.{
  ℕ, zero, suc, ◌+◌, ◌≡◌, refl, ap, List, [], ◌∷◌, ◌++◌, Option, none, some, if◌then◌else◌, ◌==◌,
  ltb, arith, length,
}
use gee_h.Queue.{
  Next, got_event, Queue, Entry, find_op, remove, run, run_next, unregister_op, timed_out,
  got_shutdown,
}
use gee_h.Async.{
  AsyncOp, Callback, functor, rpc_promise, stream_promise, writes_done_promise, finish_promise,
}
use gee_h.Async.Calls.{promise_at, settle_at}

-- Whether a callback settles the promise `p`, as a number.
abbrev pub waits_for : ℕ → Callback → ℕ
waits_for p (functor f) = 0
waits_for p (rpc_promise r) = if r == p then 1 else 0
waits_for p (stream_promise r) = if r == p then 1 else 0
waits_for p (writes_done_promise r) = if r == p then 1 else 0
waits_for p (finish_promise r) = if r == p then 1 else 0

abbrev pub holding : {Q : Type 0} → ℕ → List (Entry (AsyncOp Q)) → ℕ
holding p [] = 0
holding p (e ∷ es) = waits_for p e.op.callback + holding p es

abbrev pub one_if : {A : Type 0} → Option A → ℕ
one_if none = 0
one_if (some a) = 1

abbrev pub settled : {A : Type 0} → ℕ → List (Option A) → ℕ
settled p ps = one_if (promise_at p ps)

abbrev pub made : {A : Type 0} → ℕ → List A → ℕ
made p ps = if ltb p (length ps) then 1 else 0

abbrev pub waiting : {Q : Type 0} → ℕ → Option (AsyncOp Q) → ℕ
waiting p none = 0
waiting p (some op) = waits_for p op.callback

module _ {Q : Type 0} where
  pub holding-remove :
      (p t : ℕ) (es : List (Entry (AsyncOp Q)))
      → holding p es ≡ waiting p (find_op t es) + holding p (remove t es)
  unfolding remove
  holding-remove p t [] = omega arith
  holding-remove p t (e ∷ es) = ground (arith, holding-remove p t es)

  pub holding-run :
      (p : ℕ) (next : Next) (b : Queue (AsyncOp Q))
      → holding p b.pending_ops ≡ waiting p (run next b).1 + holding p (run next b).0.pending_ops
  unfolding run run_next unregister_op
  holding-run p got_shutdown b = ground arith
  holding-run p timed_out b = ground arith
  holding-run p (got_event t ok) b = ground (arith, holding-remove p t b.pending_ops)

pub settled-settle_at :
    {A : Type 0} (p r : ℕ) (a : A) (ps : List (Option A))
    → settled p (settle_at r a ps) ≡ (if r == p then made p ps else settled p ps)
settled-settle_at p r a [] = ground arith
settled-settle_at zero zero a (x ∷ ps) = ground arith
settled-settle_at (suc p) zero a (x ∷ ps) = ground arith
settled-settle_at zero (suc r) a (x ∷ ps) = ground arith
settled-settle_at (suc p) (suc r) a (x ∷ ps) = ground (arith, settled-settle_at p r a ps)

pub length-settle_at :
    {A : Type 0} (r : ℕ) (a : A) (ps : List (Option A)) → length (settle_at r a ps) ≡ length ps
length-settle_at r a [] = refl
length-settle_at zero a (x ∷ ps) = refl
length-settle_at (suc r) a (x ∷ ps) = ap suc (length-settle_at r a ps)

pub settled-append :
    {A : Type 0} (p : ℕ) (ps : List (Option A)) → settled p (ps ++ none ∷ []) ≡ settled p ps
settled-append zero [] = refl
settled-append (suc p) [] = refl
settled-append zero (x ∷ ps) = refl
settled-append (suc p) (x ∷ ps) = settled-append p ps
