-- ===== src/Candidate/Resign.antt =====
-- `resign()` and the destructor block while the completion queue runs other callbacks, so they are
-- cut into the parts between their waits; `System` has the thread that runs them, the counter
-- `cancels` of `resign()`, and one step for each callback and each part.
pub mod Steps
pub mod Invariant
pub mod Reached
pub mod Waits
pub mod Result
pub mod Names
use gee_h.Prelude.{ℕ, Bool, true, false, List, [], ◌∷◌, ◌++◌, if◌then◌else◌}
use gee_h.Counter.{Counter, in_shutdown, async_op_start, begin_wait, open_tracer, close_tracer}
use gee_h.Counter
use gee_h.Effect.{
  Outcome, returns, throws, called_after_shutdown, Completion, async_writes_done_future,
  async_finish_future,
}
use gee_h.Etcd.{RangeResponse, WatchResponse, cancel_request}
use gee_h.Candidate.{
  Op, range_query, watch_create, watch_read, watch_cancel, Candidate, post, election_result,
}
use gee_h.Candidate.Query.{on_range_request}
use gee_h.Candidate.Watch.{on_watch_create, on_watch_cancel, on_watch_read}

-- Where the thread that calls `resign()` or the destructor stands: nowhere, at one of the two
-- waits of `resign()`, behind it, or at one of the two waits of the destructor.
pub data Phase : Type 0 where
  running cancelling closing resigned : Phase
  destroying_ops destroying_reads destroyed : Phase

pub record System : Type 0 where
  pub candidate : Candidate
  pub cancels : Counter
  pub phase : Phase

-- The loop over the watches; `false` if it returned from the function.
unfoldable pub cancel_watches : List ℕ → Counter → Candidate → Counter × Candidate × Bool
unfolding async_op_start
cancel_watches [] cancels c = (cancels, c, true)
cancel_watches (w ∷ ws) cancels c =
    let (cancels', started) = async_op_start cancels in
    let next = cancel_watches ws cancels' (post (watch_cancel (cancel_request w) w) c) in
    if started then next else (cancels', c, false)

-- `resign()` up to `cancels.block_until_all_done()`.
unfoldable pub resign : System → System × Outcome (Unit {0})
unfolding in_shutdown begin_wait
resign s =
    let c = s.candidate in
    let c' = record c { current_watches = [] } in
    let (cancels, d, finished) = cancel_watches c.current_watches Counter.new c' in
    if in_shutdown c.ops
    then (s, throws called_after_shutdown)
    else if c.stream
    then (if finished
        then (
          record { candidate = d; cancels = begin_wait cancels; phase = cancelling },
          returns tt,
        )
        else (record s { candidate = d }, returns tt))
    else (record s { candidate = c' }, returns tt)

-- From there to `reads_.block_until_all_done()`. `try_cancel_on` changes no state of the program.
unfoldable pub resign_reads : System → System
unfolding begin_wait
resign_reads s =
    let c = s.candidate in
    record s { candidate = record c { reads = begin_wait c.reads }; phase = closing }

-- From there to the end: close the stream, then report the result. The tracers live until the
-- function returns or throws.
unfoldable pub resign_close : Bool → Bool → ℕ → System → System × Outcome (Unit {0})
unfolding open_tracer close_tracer
resign_close done_ok finish_ok status s =
    let c = s.candidate in
    let (ops, first) = open_tracer c.ops in
    let left = λ (o : Counter) (e : Candidate → Candidate). record s {
      candidate = e (record c { ops = close_tracer o first });
      phase = resigned;
    } in
    let (ops', second) = open_tracer ops in
    elim (async_writes_done_future done_ok) [
      | throws e ↦ (left ops (λ d. d), throws e)
      | returns _ ↦ elim (async_finish_future finish_ok status) [
        | throws e ↦ (left (close_tracer ops' second) (λ d. d), throws e)
        | returns _ ↦ (left (close_tracer ops' second) (election_result false), returns tt)
      ]
    ]

-- The destructor, `cleanup()`: up to `ops_.block_until_all_done()`, unless it has nothing to do.
unfoldable pub cleanup : System → System
unfolding in_shutdown begin_wait
cleanup s =
    let c = s.candidate in
    if in_shutdown c.ops
    then record s { phase = destroyed }
    else record s { candidate = record c { ops = begin_wait c.ops }; phase = destroying_ops }

-- From there to `reads_.block_until_all_done()`.
unfoldable pub cleanup_reads : System → System
unfolding begin_wait
cleanup_reads s =
    let c = s.candidate in
    record s { candidate = record c { reads = begin_wait c.reads }; phase = destroying_reads }

-- What a completed operation brings: the answer to a query or to a read of the stream.
pub record Reply : Type 0 where
  pub ok : Bool
  pub status : ℕ
  pub range : RangeResponse
  pub watch : WatchResponse

-- The lambda that the candidate gave the completion queue with the operation.
unfoldable pub callback : Op → Reply → System → System × Outcome (Unit {0})
unfolding on_range_request on_watch_create on_watch_cancel on_watch_read
callback (range_query req) r s =
    let (c, o) =
      on_range_request (record { ok = r.ok; status = r.status; response = r.range }) s.candidate in
    (record s { candidate = c }, o)
callback (watch_create req wkey wrevision) r s =
    (record s { candidate = on_watch_create r.ok wkey wrevision s.candidate }, returns tt)
callback (watch_read wkey wrevision) r s =
    (record s { candidate = on_watch_read r.ok r.watch wkey wrevision s.candidate }, returns tt)
callback (watch_cancel req w) r s = (record s { cancels = on_watch_cancel s.cancels }, returns tt)
