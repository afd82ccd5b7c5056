-- ===== src/Queue.antt =====
-- gh/detail/base_completion_queue.hpp and .cpp: the operations in flight by their tags, and the loop
-- that takes them out and runs their callbacks.
pub mod Calls
pub mod Foreign
pub mod Destroy
mod Scenarios
mod Tests
use gee_h.Prelude.{ℕ, Bool, true, false, List, [], ◌∷◌, Option, none, some, if◌then◌else◌, ◌==◌}
use gee_h.Effect.{Outcome, returns, throws, assertion_failed}

-- One call of a callback: the operation's tag, which is its address, and `ok`.
pub record Called : Type 0 where
  pub tag : ℕ
  pub ok : Bool

-- An operation under its tag.
pub record Entry (A : Type 0) : Type 0 where
  pub tag : ℕ
  pub op : A

-- `pending_ops_` and the flag; then whether the loop has ended, and what was registered and called
-- so far.
pub record Queue (A : Type 0) : Type 0 where
  pub pending_ops : List (Entry A)
  pub shutdown : Bool
  pub ended : Bool
  pub accepted : List ℕ
  pub calls : List Called

unfoldable pub new : {A : Type 0} → Queue A
new = record { pending_ops = []; shutdown = false; ended = false; accepted = []; calls = [] }

abbrev pub find_op : {A : Type 0} → ℕ → List (Entry A) → Option A
find_op t [] = none
find_op t (e ∷ es) = if e.tag == t then some e.op else find_op t es

abbrev pub holds : {A : Type 0} → ℕ → List (Entry A) → Bool
holds t [] = false
holds t (e ∷ es) = if e.tag == t then true else holds t es

-- `emplace` fails on a tag that is there.
unfoldable pub register_op : {A : Type 0} → ℕ → A → Queue A → Queue A × Outcome (Unit {0})
register_op t op q = if holds t q.pending_ops then (q, throws assertion_failed) else (
  record q { pending_ops = record { tag = t; op = op } ∷ q.pending_ops; accepted = t ∷ q.accepted },
  returns tt,
)

unfoldable pub remove : {A : Type 0} → ℕ → List (Entry A) → List (Entry A)
remove t [] = []
remove t (e ∷ es) = if e.tag == t then es else e ∷ remove t es

-- The queue afterwards, and the operation if it was there.
unfoldable pub unregister_op : {A : Type 0} → ℕ → Queue A → Queue A × Option A
unfolding remove
unregister_op t q = (record q { pending_ops = remove t q.pending_ops }, find_op t q.pending_ops)

-- What `AsyncNext` returns; a null tag is 0.
pub data Next : Type 0 where
  got_shutdown timed_out : Next
  got_event : ℕ → Bool → Next

abbrev called : {A : Type 0} → ℕ → Bool → Queue A × Option A → Queue A × Option A
called t ok (q, none) = (q, none)
called t ok (q, some op) = (record q { calls = record { tag = t; ok = ok } ∷ q.calls }, some op)

-- The body of the loop in `run`, and the operation whose callback it calls, if any.
unfoldable pub run_next : {A : Type 0} → Next → Queue A → Queue A × Option A
unfolding unregister_op
run_next got_shutdown q = (record q { ended = true }, none)
run_next timed_out q = (q, none)
run_next (got_event t ok) q = if t == 0 then (q, none) else called t ok (unregister_op t q)

-- One round of the loop: its condition, then its body.
unfoldable pub run : {A : Type 0} → Next → Queue A → Queue A × Option A
unfolding run_next
run next q =
    if q.ended
    then (q, none)
    else if q.shutdown
    then (record q { ended = true }, none)
    else run_next next q

unfoldable pub shutdown : {A : Type 0} → Queue A → Queue A
shutdown q = record q { shutdown = true }
