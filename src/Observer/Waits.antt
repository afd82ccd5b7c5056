-- ===== src/Observer/Waits.antt =====
-- What holds of an observer in every history, and when its destructor returns.
use gee_h.Prelude.{
  Option, none, if◌then◌else◌, Bool, false, ap, ℕ, suc, ◌≡◌, refl, sym, pos, true, List, [], ◌∷◌,
  some, arith, length,
}
use gee_h.Counter.{begin_wait, stop, all_done, async_op_done}
use gee_h.Etcd.{KeyValue}
use gee_h.Observer.{
  Watching, find_leader, start_watch, stop_watch, read_watch, Observer, call_subscribers,
}
use gee_h.Observer.Events.{
  start_op, watch_request, create_watcher, cleanup, report_election_leader, watch_from,
  on_range_request, on_watch_create, on_watch_cancel, on_watch_read,
}
use gee_h.Observer.Histories.{Report, react, Watched}
use gee_h.Observer.Kept.{Watched-IsKept}

-- In every history `ops_` counts the operations in the completion queue.
pub pending-Watched : (o : Observer) → Watched o → o.ops.pending ≡ pos (length o.queue)
pending-Watched o w = ground (arith, Watched-IsKept w)

-- The completion queue takes its first operation, if any, and runs the callback.
unfoldable pub reacted : Report → Observer → Observer
reacted r o = elim o.queue [ [] ↦ o | op ∷ ops ↦ react op r (record o { queue = ops }) ]

unfoldable pub all_reacted : List Report → Observer → Observer
all_reacted [] o = o
all_reacted (r ∷ rs) o = all_reacted rs (reacted r o)

-- `n` operations are in the queue, and none can start.
record IsEnding (n : ℕ) (o : Observer) : Type 0 where
  shut : o.ops.shutdown ≡ true
  left : length o.queue ≡ n
  exact : o.ops.pending ≡ pos n

start_op-IsEnding :
    {n : ℕ} (op : Watching) (o : Observer) → IsEnding n o → IsEnding n (start_op op o)
unfolding start_op
start_op-IsEnding op o v = ground arith

report-IsEnding :
    {n : ℕ} (kv : KeyValue) (o : Observer) → IsEnding n o → IsEnding n (report_election_leader kv o)
unfolding report_election_leader call_subscribers
report-IsEnding kv o v = ground arith

watch_from-IsEnding :
    {n : ℕ} (kvs : List KeyValue) (revision : ℕ) (o : Observer)
    → IsEnding n o
    → IsEnding n (watch_from kvs revision o).0
unfolding watch_from create_watcher
watch_from-IsEnding [] revision o v = start_op-IsEnding (watch_request revision o) o v
watch_from-IsEnding (kv ∷ []) revision o v =
    report-IsEnding kv _ (start_op-IsEnding (watch_request kv.create_revision o) o v)
watch_from-IsEnding (kv ∷ x ∷ xs) revision o v =
    start_op-IsEnding (watch_request kv.create_revision o) o v

react-IsEnding :
    (n : ℕ) (op : Watching) (ops : List Watching) (r : Report) (o : Observer)
    → o.queue ≡ op ∷ ops
    → IsEnding (suc n) o
    → IsEnding n (react op r (record o { queue = ops }))
unfolding react on_range_request on_watch_create on_watch_cancel on_watch_read start_op
    call_subscribers async_op_done
react-IsEnding n (find_leader req) ops r o e v =
    let d = record o { queue = ops; ops = async_op_done o.ops } in
    ground (arith, watch_from-IsEnding {n = n} r.range.kvs r.range.revision d)
react-IsEnding n (start_watch req) ops r o e v = ground arith
react-IsEnding n (stop_watch req) ops r o e v = ground arith
react-IsEnding n read_watch ops r o e v = ground arith

reacted-IsEnding :
    (n : ℕ) (r : Report) (o : Observer) → IsEnding (suc n) o → IsEnding n (reacted r o)
unfolding reacted
reacted-IsEnding n r o v = go o.queue refl
  where
    go : (q : List Watching) → o.queue ≡ q → IsEnding n (reacted r o)
    go [] h = absurd (ground arith)
    go (op ∷ ops) h = rw h (react-IsEnding n op ops r o h v)

all_reacted-IsEnding :
    (rs : List Report) (o : Observer) → IsEnding (length rs) o → IsEnding 0 (all_reacted rs o)
unfolding all_reacted
all_reacted-IsEnding [] o v = v
all_reacted-IsEnding (r ∷ rs) o v =
    all_reacted-IsEnding rs (reacted r o) (reacted-IsEnding (length rs) r o v)

IsEnding-all_done : (o : Observer) → IsEnding 0 o → all_done o.ops ≡ true
unfolding all_done
IsEnding-all_done o v = ground arith

-- Whether the destructor's wait returns after the callbacks, if the destructor comes to it.
abbrev pub ends : List Report → Option Observer → Option Bool
ends rs none = none
ends rs (some o) = some (all_done (all_reacted rs o).ops)

-- In every history the destructor of an observer with a stream comes to its wait, and one reply for
-- each operation in the completion queue, whatever it brings, makes the wait return. Without a stream
-- the destructor has no defined result.
pub all_done-cleanup :
    (o : Observer) (rs : List Report)
    → Watched o
    → length rs ≡ length o.queue
    → ends rs (cleanup o) ≡ (if o.watcher_stream then some true else none)
unfolding cleanup
all_done-cleanup o rs w h =
    let d = record o { ops = begin_wait (stop o.ops) } in
    let start : IsEnding (length rs) d = record {
      shut = refl;
      left = sym h;
      exact = ground (arith, pending-Watched o w);
    } in
    let over = IsEnding-all_done (all_reacted rs d) (all_reacted-IsEnding rs d start) in
    go d over o.watcher_stream
  where
    go :
        (d : Observer)
        → all_done (all_reacted rs d).ops ≡ true
        → (there : Bool)
        → ends rs (if there then some d else none) ≡ (if there then some true else none)
    go d over true = ap some over
    go d over false = refl
