-- ===== src/Candidate/Balance.antt =====
-- The counters of a candidate against the operations in the completion queue.
use gee_h.Prelude.{
  ℕ, suc, ◌+◌, ◌≡◌, pos, Bool, true, false, List, [], ◌∷◌, arith, total, total-post,
}
use gee_h.Counter.{async_op_start, async_op_done}
use gee_h.Effect.{Completion}
use gee_h.Etcd.{KeyValue, RangeResponse, WatchResponse}
use gee_h.Candidate.{
  Op, range_query, watch_create, watch_read, watch_cancel, Candidate, election_result,
}
use gee_h.Candidate.Query.{
  predecessor_request, query_predecessor, watch_op, create_watcher, watch_all,
  check_election_over_maybe, on_range_request,
}
use gee_h.Candidate.Watch.{
  erase_watch, read_again, on_watch_create, note_response, follow_up, on_watch_read,
}

-- The operations that `ops_`, `reads_` and the counter of `resign()` count.
abbrev pub on_ops : Op → ℕ
on_ops (range_query req) = 1
on_ops (watch_create req wkey wrevision) = 1
on_ops (watch_read wkey wrevision) = 0
on_ops (watch_cancel req w) = 0

abbrev pub on_reads : Op → ℕ
on_reads (range_query req) = 0
on_reads (watch_create req wkey wrevision) = 0
on_reads (watch_read wkey wrevision) = 1
on_reads (watch_cancel req w) = 0

abbrev pub on_cancels : Op → ℕ
on_cancels (range_query req) = 0
on_cancels (watch_create req wkey wrevision) = 0
on_cancels (watch_read wkey wrevision) = 0
on_cancels (watch_cancel req w) = 1

-- The counters are ahead of the queue by `i` and `j` operations, and the queue holds `n`
-- operations of `resign()`; `shut` is the flag of `ops_`.
pub record IsBalanced (i j n : ℕ) (shut : Bool) (c : Candidate) : Type 0 where
  pub ops_exact : c.ops.pending ≡ pos (i + total on_ops c.queue)
  pub reads_exact : c.reads.pending ≡ pos (j + total on_reads c.queue)
  pub cancels_exact : total on_cancels c.queue ≡ n
  pub flag_exact : c.ops.shutdown ≡ shut

election_result-IsBalanced :
    {i j n : ℕ} {shut : Bool} (result : Bool) {c : Candidate}
    → IsBalanced i j n shut c
    → IsBalanced i j n shut (election_result result c)
unfolding election_result
election_result-IsBalanced result v = record {
  ops_exact = v.ops_exact;
  reads_exact = v.reads_exact;
  cancels_exact = v.cancels_exact;
  flag_exact = v.flag_exact;
}

pub query_predecessor-IsBalanced :
    {i j n : ℕ} {shut : Bool} (c : Candidate)
    → IsBalanced i j n shut c
    → IsBalanced i j n shut (query_predecessor c)
unfolding query_predecessor election_result
query_predecessor-IsBalanced c v =
    let op = range_query (predecessor_request c) in
    ground (
      arith,
      total-post on_ops c.queue op,
      total-post on_reads c.queue op,
      total-post on_cancels c.queue op,
    )

watch_all-IsBalanced :
    {i j n : ℕ} {shut : Bool} (kvs : List KeyValue) (revision : ℕ) (c : Candidate)
    → IsBalanced i j n shut c
    → IsBalanced i j n shut (watch_all kvs revision c).0
unfolding watch_all
watch_all-IsBalanced [] revision c v = v
watch_all-IsBalanced {i} {j} {n} {shut} (kv ∷ kvs) revision c v =
    let next = create_watcher kv revision (record c { ops = (async_op_start c.ops).0 }) in
    let op = watch_op kv revision in
    ground (
      arith,
      total-post on_ops c.queue op,
      total-post on_reads c.queue op,
      total-post on_cancels c.queue op,
      watch_all-IsBalanced {i = i} {j = j} {n = n} {shut = shut} kvs revision next,
    )

check_election_over_maybe-IsBalanced :
    {i j n : ℕ} {shut : Bool} (c : Candidate)
    → IsBalanced i j n shut c
    → IsBalanced i j n shut (check_election_over_maybe c)
unfolding check_election_over_maybe election_result
check_election_over_maybe-IsBalanced c v = ground arith

-- The callback of a query counts the query as done, unless it was cancelled.
abbrev pub undone : Bool → ℕ
undone true = 0
undone false = 1

pub on_range_request-IsBalanced :
    {i j n : ℕ} {shut : Bool} (op : Completion RangeResponse) (c : Candidate)
    → IsBalanced (suc i) j n shut c
    → IsBalanced (undone op.ok + i) j n shut (on_range_request op c).0
unfolding on_range_request election_result
on_range_request-IsBalanced {i} {j} {n} {shut} op c v =
    let d = record c { ops = async_op_done c.ops } in
    let (e, _) = watch_all op.response.kvs op.response.revision d in
    ground (
      arith,
      watch_all-IsBalanced {i = i} {j = j} {n = n} {shut = shut} op.response.kvs
          op.response.revision d,
      check_election_over_maybe-IsBalanced {i = i} {j = j} {n = n} {shut = shut} e,
    )

pub read_again-IsBalanced :
    {i j n : ℕ} {shut : Bool} (wkey : List ℕ) (wrevision : ℕ) (c : Candidate)
    → IsBalanced i j n shut c
    → IsBalanced i j n shut (read_again wkey wrevision c)
unfolding read_again
read_again-IsBalanced wkey wrevision c v =
    let op = watch_read wkey wrevision in
    ground (
      arith,
      total-post on_ops c.queue op,
      total-post on_reads c.queue op,
      total-post on_cancels c.queue op,
    )

pub on_watch_create-IsBalanced :
    {i j n : ℕ} {shut : Bool} (ok : Bool) (wkey : List ℕ) (wrevision : ℕ) (c : Candidate)
    → IsBalanced (suc i) j n shut c
    → IsBalanced i j n shut (on_watch_create ok wkey wrevision c)
unfolding on_watch_create
on_watch_create-IsBalanced {i} {j} {n} {shut} ok wkey wrevision c v =
    let d = record c { ops = async_op_done c.ops } in
    ground (arith, read_again-IsBalanced {i = i} {j = j} {n = n} {shut = shut} wkey wrevision d)

follow_up-IsBalanced :
    {i j n : ℕ} {shut : Bool} (r : WatchResponse) (wkey : List ℕ) (wrevision : ℕ) (c : Candidate)
    → IsBalanced i j n shut c
    → IsBalanced i j n shut (follow_up r wkey wrevision c)
unfolding follow_up
follow_up-IsBalanced {i} {j} {n} {shut} r wkey wrevision c v =
    let d = record c { current_watches = erase_watch r.watch_id c.current_watches } in
    ground (
      arith,
      query_predecessor-IsBalanced {i = i} {j = j} {n = n} {shut = shut} c,
      query_predecessor-IsBalanced {i = i} {j = j} {n = n} {shut = shut} d,
      read_again-IsBalanced {i = i} {j = j} {n = n} {shut = shut} wkey wrevision c,
    )

pub on_watch_read-IsBalanced :
    {i j n : ℕ} {shut : Bool} (ok : Bool) (r : WatchResponse) (wkey : List ℕ) (wrevision : ℕ)
    (c : Candidate)
    → IsBalanced i (suc j) n shut c
    → IsBalanced i j n shut (on_watch_read ok r wkey wrevision c)
unfolding on_watch_read note_response
on_watch_read-IsBalanced {i} {j} {n} {shut} ok r wkey wrevision c v =
    let d = note_response r (record c { reads = async_op_done c.reads }) in
    ground (arith, follow_up-IsBalanced {i = i} {j = j} {n = n} {shut = shut} r wkey wrevision d)
