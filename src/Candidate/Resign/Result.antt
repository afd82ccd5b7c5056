-- ===== src/Candidate/Resign/Result.antt =====
-- The promise behind the future of `campaign()` keeps its first result.
use gee_h.Prelude.{ℕ, ◌≡◌, Bool, some, List, [], ◌∷◌, arith}
use gee_h.Counter.{Counter, async_op_start, async_op_done}
use gee_h.Counter
use gee_h.Effect.{Completion}
use gee_h.Etcd.{KeyValue, RangeResponse, WatchResponse, TxnRequest, TxnResponse, cancel_request}
use gee_h.Candidate.{
  Op, range_query, watch_create, watch_read, watch_cancel, Candidate, election_result, post,
}
use gee_h.Candidate.Query.{query_predecessor, create_watcher, watch_all, on_range_request}
use gee_h.Candidate.Watch.{erase_watch, on_watch_create, note_response, follow_up, on_watch_read}
use gee_h.Candidate.Campaign.Promised.{campaign-promise, proclaim-promise}
use gee_h.Candidate.Resign.{
  System, cancel_watches, resign, resign_reads, resign_close, cleanup, cleanup_reads, Reply,
  callback,
}
use gee_h.Candidate.Resign.Steps.{
  taken, at_world, Step, campaigns, proclaims, resigns, cancels_done, reads_done, destroys,
  ops_done, ended, completes,
}

-- The promise holds the result `b`.
abbrev IsSettled : Bool → Candidate → Type 0
IsSettled b c = c.promise.value ≡ some b

module _ (b : Bool) where
  watch_all-IsSettled :
      (kvs : List KeyValue) (revision : ℕ) (c : Candidate)
      → IsSettled b c
      → IsSettled b (watch_all kvs revision c).0
  unfolding watch_all
  watch_all-IsSettled [] revision c h = h
  watch_all-IsSettled (kv ∷ kvs) revision c h = ground (
    arith,
    watch_all-IsSettled kvs revision
        (create_watcher kv revision (record c { ops = (async_op_start c.ops).0 })),
  )

  query_predecessor-IsSettled : (c : Candidate) → IsSettled b c → IsSettled b (query_predecessor c)
  unfolding query_predecessor election_result
  query_predecessor-IsSettled c h = ground arith

  on_range_request-IsSettled :
      (op : Completion RangeResponse) (c : Candidate)
      → IsSettled b c
      → IsSettled b (on_range_request op c).0
  unfolding on_range_request election_result
  on_range_request-IsSettled op c h =
      let d = record c { ops = async_op_done c.ops } in
      ground (arith, watch_all-IsSettled op.response.kvs op.response.revision d)

  on_watch_create-IsSettled :
      (ok : Bool) (wkey : List ℕ) (wrevision : ℕ) (c : Candidate)
      → IsSettled b c
      → IsSettled b (on_watch_create ok wkey wrevision c)
  unfolding on_watch_create
  on_watch_create-IsSettled ok wkey wrevision c h = ground arith

  follow_up-IsSettled :
      (r : WatchResponse) (wkey : List ℕ) (wrevision : ℕ) (c : Candidate)
      → IsSettled b c
      → IsSettled b (follow_up r wkey wrevision c)
  unfolding follow_up
  follow_up-IsSettled r wkey wrevision c h =
      let d = record c { current_watches = erase_watch r.watch_id c.current_watches } in
      ground (arith, query_predecessor-IsSettled c, query_predecessor-IsSettled d)

  on_watch_read-IsSettled :
      (ok : Bool) (r : WatchResponse) (wkey : List ℕ) (wrevision : ℕ) (c : Candidate)
      → IsSettled b c
      → IsSettled b (on_watch_read ok r wkey wrevision c)
  unfolding on_watch_read note_response
  on_watch_read-IsSettled ok r wkey wrevision c h =
      let d = note_response r (record c { reads = async_op_done c.reads }) in
      ground (arith, follow_up-IsSettled r wkey wrevision d)

  cancel_watches-IsSettled :
      (ws : List ℕ) (cancels : Counter) (c : Candidate)
      → IsSettled b c
      → IsSettled b (cancel_watches ws cancels c).1
  unfolding cancel_watches
  cancel_watches-IsSettled [] cancels c h = h
  cancel_watches-IsSettled (w ∷ ws) cancels c h = ground (
    arith,
    cancel_watches-IsSettled ws (async_op_start cancels).0
        (post (watch_cancel (cancel_request w) w) c),
  )

  callback-IsSettled :
      (op : Op) (r : Reply) (s : System)
      → IsSettled b s.candidate
      → IsSettled b (callback op r s).0.candidate
  unfolding callback
  callback-IsSettled (range_query req) r s h =
      let op : Completion RangeResponse = record {
        ok = r.ok;
        status = r.status;
        response = r.range;
      } in
      on_range_request-IsSettled op s.candidate h
  callback-IsSettled (watch_create req wkey wrevision) r s h =
      on_watch_create-IsSettled r.ok wkey wrevision s.candidate h
  callback-IsSettled (watch_read wkey wrevision) r s h =
      on_watch_read-IsSettled r.ok r.watch wkey wrevision s.candidate h
  callback-IsSettled (watch_cancel req w) r s h = h

  -- Once the promise of a candidate holds a result, no callback and no method changes it.
  pub Step-result :
      {W : Type 0} (call : W → TxnRequest → W × Completion TxnResponse) (j : ℕ) (s t : System)
      → Step call s j t
      → s.candidate.promise.value ≡ some b
      → t.candidate.promise.value ≡ some b
  unfolding resign resign_reads resign_close cleanup cleanup_reads election_result
  Step-result call j s t (campaigns ok w i) h = campaign-promise call b ok (at_world s w) h
  Step-result call j s t (proclaims v w i) h = proclaim-promise call b v (at_world s w) h
  Step-result call j s t (resigns i) h = ground (
    arith,
    cancel_watches-IsSettled s.candidate.current_watches Counter.new
        (record s.candidate { current_watches = [] }),
  )
  Step-result call j s t (cancels_done p d) h = h
  Step-result call j s t (reads_done done_ok finish_ok status p d) h = ground arith
  Step-result call j s t (destroys i) h = ground arith
  Step-result call j s t (ops_done p d) h = h
  Step-result call j s t (ended p d) h = h
  Step-result call j s t (completes xs ys op r e) h = callback-IsSettled op r (taken xs ys s) h
