-- ===== src/Observer/Events.antt =====
-- The observer's operations on the completion queue, and their callbacks.
use gee_h.Prelude.{
  ℕ, Bool, true, false, not, ◌||◌, List, [], ◌∷◌, ◌++◌, if◌then◌else◌, pos, Option, some, none,
}
use gee_h.PrefixEnd.{prefix_end}
use gee_h.Counter.{async_op_start, async_op_done, begin_wait, stop, open_tracer, close_tracer}
use gee_h.Effect.{
  M, ◌>>◌, modify, returns, throws, assertion_failed, called_before_startup, Completion,
  async_create_rdwr_stream_future,
}
use gee_h.Etcd.{
  KeyValue, RangeResponse, ascend, by_create, create_request, cancel_request, Event, put, delete,
  other, WatchResponse,
}
use gee_h.Candidate.Watch.{is_cancelled}
use gee_h.Observer.{
  Watching, find_leader, start_watch, stop_watch, read_watch, Observer, handle_node_put,
  handle_node_delete, call_subscribers,
}

-- `async_op_start`, and the operation if it may start.
unfoldable pub start_op : Watching → Observer → Observer
unfolding async_op_start
start_op op o =
    let (ops, started) = async_op_start o.ops in
    if started then record o { ops = ops; queue = o.queue ++ op ∷ [] } else record o { ops = ops }

-- The tracer is tested; its destructor runs on every path.
unfoldable pub create_watcher_stream : Bool → M Observer (Unit {0})
unfolding open_tracer close_tracer
create_watcher_stream ok o =
    let (ops, status) = open_tracer o.ops in
    let closed = record o { ops = close_tracer ops status } in
    if status
    then elim (async_create_rdwr_stream_future ok) [
      | returns _ ↦ (record closed { watcher_stream = true }, returns tt)
      | throws e ↦ (closed, throws e)
    ]
    else (closed, returns tt)

unfoldable pub watch_request : ℕ → Observer → Watching
watch_request start_revision o = start_watch (
    create_request (record {
      key = o.election_prefix;
      range_end = prefix_end o.election_prefix;
      start_revision = start_revision;
      prev_kv = true;
      progress_notify = true;
    }))

unfoldable pub create_watcher : ℕ → Observer → Observer
unfolding start_op watch_request
create_watcher start_revision o = start_op (watch_request start_revision o) o

unfoldable pub cancel_watcher : Observer → Observer
unfolding start_op
cancel_watcher o = start_op (stop_watch (cancel_request o.watch_id)) o

-- The key of the election with the smallest creation revision.
unfoldable pub discover_node_with_lowest_creation_revision : Observer → Observer
unfolding start_op
discover_node_with_lowest_creation_revision o =
    start_op
      (find_leader (record {
        key = o.election_prefix;
        range_end = prefix_end o.election_prefix;
        max_create_revision = pos 0;
        sort_order = ascend;
        sort_target = by_create;
        limit = 1;
      }))
      o

unfoldable pub startup : Bool → M Observer (Unit {0})
unfolding create_watcher_stream discover_node_with_lowest_creation_revision
startup ok = do create_watcher_stream ok; modify discover_node_with_lowest_creation_revision

unfoldable pub shutdown : M Observer (Unit {0})
unfolding cancel_watcher
shutdown o =
    if o.watcher_stream then (cancel_watcher o, returns tt) else (o, throws called_before_startup)

-- The destructor, up to its wait. There is no result when it dereferences a stream that is not there.
unfoldable pub cleanup : Observer → Option Observer
unfolding stop begin_wait
cleanup o = if o.watcher_stream then some (record o { ops = begin_wait (stop o.ops) }) else none

unfoldable pub report_election_leader : KeyValue → Observer → Observer
unfolding handle_node_put call_subscribers
report_election_leader kv o =
    let (ps, changed) = handle_node_put kv o.participants in
    let o' = record o { participants = ps } in if changed then call_subscribers o' else o'

-- What `on_range_request` does with the keys of the answer, and its revision.
unfoldable pub watch_from : List KeyValue → ℕ → M Observer (Unit {0})
unfolding create_watcher report_election_leader
watch_from [] revision o = (create_watcher revision o, returns tt)
watch_from (kv ∷ []) revision o =
    (report_election_leader kv (create_watcher kv.create_revision o), returns tt)
watch_from (kv ∷ _ ∷ _) revision o = (create_watcher kv.create_revision o, throws assertion_failed)

-- The status of the call is not read.
unfoldable pub on_range_request : Completion RangeResponse → M Observer (Unit {0})
unfolding async_op_done watch_from
on_range_request op o =
    let o' = record o { ops = async_op_done o.ops } in
    if op.ok then watch_from op.response.kvs op.response.revision o' else (o', returns tt)

unfoldable pub on_watch_create : Bool → Observer → Observer
unfolding async_op_done start_op
on_watch_create ok o =
    let o' = record o { ops = async_op_done o.ops } in if ok then start_op read_watch o' else o'

unfoldable pub on_watch_cancel : Bool → Observer → Observer
unfolding async_op_done
on_watch_cancel ok o = record o { ops = async_op_done o.ops }

-- One event: the participants, and whether the leader changed.
unfoldable pub handle_event : Event → List KeyValue → List KeyValue × Bool
unfolding handle_node_put handle_node_delete
handle_event ev ps = elim ev.type [
  | put ↦ handle_node_put ev.kv ps
  | delete ↦ handle_node_delete ev.prev_kv ps
  | other ↦ (ps, false)
]

unfoldable pub handle_events : List Event → List KeyValue → Bool → List KeyValue × Bool
unfolding handle_event
handle_events [] ps changed = (ps, changed)
handle_events (ev ∷ evs) ps changed =
    let (qs, now) = handle_event ev ps in handle_events evs qs (now || changed)

unfoldable pub on_watch_read : Bool → WatchResponse → Observer → Observer
unfolding async_op_done handle_events call_subscribers start_op
on_watch_read ok r o =
    let o' = record o { ops = async_op_done o.ops } in
    let (ps, changed) = handle_events r.events o.participants false in
    let o'' = record o' { watch_id = r.watch_id; participants = ps } in
    if not ok || is_cancelled r
    then o'
    else start_op read_watch (if changed then call_subscribers o'' else o'')
