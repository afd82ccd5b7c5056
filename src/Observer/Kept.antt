-- ===== src/Observer/Kept.antt =====
-- What every method and every callback of an observer keeps: the count of its operations, the order of
-- its participants and the tokens it has given out.
use gee_h.Prelude.{
  ℕ, suc, ◌+◌, ◌≤◌, ◌≡◌, ◌≢◌, refl, ap, pos, Bool, true, false, List, [], ◌∷◌, ◌++◌, arith, length,
  length-append, Bool-cases, inl, inr, if◌then◌else◌, not, ◌||◌,
}
use gee_h.Counter.{all_done, async_op_done}
use gee_h.Counter
use gee_h.Effect.{Completion, Outcome, and_then, returns, throws, modify}
use gee_h.Etcd.{KeyValue, RangeResponse, WatchResponse, cancel_request}
use gee_h.Candidate.Watch.{is_cancelled}
use gee_h.Observer.{
  Watching, find_leader, start_watch, stop_watch, read_watch, Subscription, Observer, new,
  handle_node_put, subscribe, unsubscribe, drop_token, call_subscribers,
}
use gee_h.Observer.Events.{
  start_op, create_watcher_stream, watch_request, create_watcher, cancel_watcher,
  discover_node_with_lowest_creation_revision, startup, shutdown, report_election_leader,
  watch_from, on_range_request, on_watch_create, on_watch_cancel, on_watch_read, handle_events,
}
use gee_h.Observer.Leader.{IsSorted, assign-IsSorted}
use gee_h.Observer.Changes.{handle_events-IsSorted}
use gee_h.Observer.Histories.{
  Report, react, leaving, Watched, created, starts, stops, subscribes, unsubscribes, reacts,
}

-- No token is larger than the last one.
abbrev pub Issued : ℕ → List Subscription → Type 0
Issued n [] = Unit
Issued n (s ∷ ss) = (s.token ≤ n) × Issued n ss

-- No token is `t`.
abbrev pub Lacks : ℕ → List Subscription → Type 0
Lacks t [] = Unit
Lacks t (s ∷ ss) = (s.token ≢ t) × Lacks t ss

-- No token stands twice, as in a map.
abbrev pub Distinct : List Subscription → Type 0
Distinct [] = Unit
Distinct (s ∷ ss) = Lacks s.token ss × Distinct ss

-- `n` operations are counted that are not in the queue.
pub record IsKept (n : ℕ) (o : Observer) : Type 0 where
  pub exact : o.ops.pending ≡ pos (n + length o.queue)
  pub running : o.ops.shutdown ≡ false
  pub sorted : IsSorted o.participants
  pub issued : Issued o.token_gen o.subscriptions
  pub distinct : Distinct o.subscriptions

done : Observer → Observer
done o = record o { ops = async_op_done o.ops }

start_op-IsKept : {n : ℕ} (op : Watching) (o : Observer) → IsKept n o → IsKept n (start_op op o)
unfolding start_op
start_op-IsKept op o v = ground (arith, length-append o.queue (op ∷ []))

create_watcher-IsKept : {n : ℕ} (r : ℕ) (o : Observer) → IsKept n o → IsKept n (create_watcher r o)
unfolding create_watcher
create_watcher-IsKept r o v = start_op-IsKept (watch_request r o) o v

call_subscribers-IsKept : {n : ℕ} (o : Observer) → IsKept n o → IsKept n (call_subscribers o)
unfolding call_subscribers
call_subscribers-IsKept o v = record {
  exact = v.exact;
  running = v.running;
  sorted = v.sorted;
  issued = v.issued;
  distinct = v.distinct;
}

-- A step that changes the participants, and may call the subscribers.
updated-IsKept :
    {n : ℕ} (w : ℕ) (ps : List KeyValue) (called : Bool) (o : Observer)
    → IsSorted ps
    → IsKept n o
    → let d = record o { watch_id = w; participants = ps } in
      IsKept n (if called then call_subscribers d else d)
updated-IsKept w ps true o s v =
    call_subscribers-IsKept (record o { watch_id = w; participants = ps })
      (record {
        exact = v.exact;
        running = v.running;
        sorted = s;
        issued = v.issued;
        distinct = v.distinct;
      })
updated-IsKept w ps false o s v = record {
  exact = v.exact;
  running = v.running;
  sorted = s;
  issued = v.issued;
  distinct = v.distinct;
}

report-IsKept :
    {n : ℕ} (kv : KeyValue) (o : Observer) → IsKept n o → IsKept n (report_election_leader kv o)
unfolding report_election_leader handle_node_put
report-IsKept kv o v =
    let (ps, changed) = handle_node_put kv o.participants in
    updated-IsKept o.watch_id ps changed o (assign-IsSorted kv o.participants v.sorted) v

done-IsKept : (o : Observer) → IsKept 1 o → IsKept 0 (done o)
unfolding done async_op_done
done-IsKept o v = ground arith

watch_from-IsKept :
    {n : ℕ} (kvs : List KeyValue) (revision : ℕ) (o : Observer)
    → IsKept n o
    → IsKept n (watch_from kvs revision o).0
unfolding watch_from
watch_from-IsKept [] revision o v = create_watcher-IsKept revision o v
watch_from-IsKept (kv ∷ []) revision o v =
    report-IsKept kv (create_watcher kv.create_revision o)
      (create_watcher-IsKept kv.create_revision o v)
watch_from-IsKept (kv ∷ x ∷ xs) revision o v = create_watcher-IsKept kv.create_revision o v

on_range_request-IsKept :
    (op : Completion RangeResponse) (o : Observer) → IsKept 1 o → IsKept 0 (on_range_request op o).0
unfolding on_range_request done
on_range_request-IsKept op o v = elim (Bool-cases op.ok) [
  | inr failed ↦ simp failed (done-IsKept o v)
  | inl fine ↦
      simp fine (watch_from-IsKept op.response.kvs op.response.revision (done o) (done-IsKept o v))
]

on_watch_create-IsKept : (ok : Bool) (o : Observer) → IsKept 1 o → IsKept 0 (on_watch_create ok o)
unfolding on_watch_create done
on_watch_create-IsKept true o v = start_op-IsKept read_watch (done o) (done-IsKept o v)
on_watch_create-IsKept false o v = done-IsKept o v

on_watch_read-IsKept :
    (ok : Bool) (r : WatchResponse) (o : Observer) → IsKept 1 o → IsKept 0 (on_watch_read ok r o)
unfolding on_watch_read done
on_watch_read-IsKept ok r o v =
    let (ps, changed) = handle_events r.events o.participants false in
    elim (Bool-cases (not ok || is_cancelled r)) [
      | inl over ↦ rw over (done-IsKept o v)
      | inr alive ↦ rw alive (
          start_op-IsKept read_watch _ (
            updated-IsKept r.watch_id ps changed (done o)
              (handle_events-IsSorted r.events o.participants false v.sorted) (done-IsKept o v)))
    ]

discover-IsKept :
    {n : ℕ} (o : Observer) → IsKept n o → IsKept n (discover_node_with_lowest_creation_revision o)
unfolding discover_node_with_lowest_creation_revision
discover-IsKept o v = start_op-IsKept _ o v

opened-IsKept : (ok : Bool) (o : Observer) → IsKept 0 o → IsKept 0 (create_watcher_stream ok o).0
unfolding create_watcher_stream
opened-IsKept ok o v = ground arith

startup-IsKept : (ok : Bool) (o : Observer) → IsKept 0 o → IsKept 0 (startup ok o).0
unfolding startup
startup-IsKept ok o v = go (create_watcher_stream ok o) (opened-IsKept ok o v)
  where
    go :
        (r : Observer × Outcome (Unit {0}))
        → IsKept 0 r.0
        → IsKept 0 (and_then r (λ _. modify discover_node_with_lowest_creation_revision)).0
    go (d, returns u) w = discover-IsKept d w
    go (d, throws e) w = w

shutdown-IsKept : (o : Observer) → IsKept 0 o → IsKept 0 (shutdown o).0
unfolding shutdown cancel_watcher
shutdown-IsKept o v =
    ground (arith, start_op-IsKept {n = 0} (stop_watch (cancel_request o.watch_id)) o v)

Issued-weaken : (n : ℕ) (ss : List Subscription) → Issued n ss → Issued (suc n) ss
Issued-weaken n [] h = tt
Issued-weaken n (s ∷ ss) h = ground (arith, Issued-weaken n ss)

Issued-subscribe :
    (n x : ℕ) (ss : List Subscription)
    → Issued n ss
    → Issued (suc n) (ss ++ record { token = suc n; subscriber = x } ∷ [])
Issued-subscribe n x [] h = ground arith
Issued-subscribe n x (s ∷ ss) h = ground (arith, Issued-subscribe n x ss)

Issued-drop_token : (n t : ℕ) (ss : List Subscription) → Issued n ss → Issued n (drop_token t ss)
unfolding drop_token
Issued-drop_token n t [] h = tt
Issued-drop_token n t (s ∷ ss) h = ground (arith, Issued-drop_token n t ss)

Lacks-subscribe :
    (n t x : ℕ) (ss : List Subscription)
    → t ≤ n
    → Lacks t ss
    → Lacks t (ss ++ record { token = suc n; subscriber = x } ∷ [])
Lacks-subscribe n t x [] h l = ground arith
Lacks-subscribe n t x (s ∷ ss) h l = ground (arith, Lacks-subscribe n t x ss h)

pub Distinct-subscribe :
    (n x : ℕ) (ss : List Subscription)
    → Issued n ss
    → Distinct ss
    → Distinct (ss ++ record { token = suc n; subscriber = x } ∷ [])
Distinct-subscribe n x [] h d = ground arith
Distinct-subscribe n x (s ∷ ss) h d =
    ground (arith, Distinct-subscribe n x ss, Lacks-subscribe n s.token x ss)

Lacks-drop_token : (t u : ℕ) (ss : List Subscription) → Lacks u ss → Lacks u (drop_token t ss)
unfolding drop_token
Lacks-drop_token t u [] l = tt
Lacks-drop_token t u (s ∷ ss) l = ground (arith, Lacks-drop_token t u ss)

Distinct-drop_token : (t : ℕ) (ss : List Subscription) → Distinct ss → Distinct (drop_token t ss)
unfolding drop_token
Distinct-drop_token t [] d = tt
Distinct-drop_token t (s ∷ ss) d =
    ground (arith, Distinct-drop_token t ss, Lacks-drop_token t s.token ss)

react-IsKept : (op : Watching) (r : Report) (o : Observer) → IsKept 1 o → IsKept 0 (react op r o)
unfolding react
react-IsKept (find_leader req) r o v =
    on_range_request-IsKept (record { ok = r.ok; status = r.status; response = r.range }) o v
react-IsKept (start_watch req) r o v = on_watch_create-IsKept r.ok o v
react-IsKept (stop_watch req) r o v = unfold on_watch_cancel done in done-IsKept o v
react-IsKept read_watch r o v = on_watch_read-IsKept r.ok r.watch o v

length-middle :
    (xs ys : List Watching) (op : Watching) → length (xs ++ op ∷ ys) ≡ suc (length (xs ++ ys))
length-middle [] ys op = refl
length-middle (x ∷ xs) ys op = ap suc (length-middle xs ys op)

pub Watched-IsKept : {o : Observer} → Watched o → IsKept 0 o
unfolding new Counter.new subscribe unsubscribe
Watched-IsKept (created name) = record {
  exact = refl;
  running = refl;
  sorted = tt;
  issued = tt;
  distinct = tt;
}
Watched-IsKept (starts {o} ok w) = startup-IsKept ok o (Watched-IsKept w)
Watched-IsKept (stops {o} w) = shutdown-IsKept o (Watched-IsKept w)
Watched-IsKept (subscribes {o} x w) =
    let v = Watched-IsKept w in
    record {
      exact = v.exact;
      running = v.running;
      sorted = v.sorted;
      issued = Issued-subscribe o.token_gen x o.subscriptions v.issued;
      distinct = Distinct-subscribe o.token_gen x o.subscriptions v.issued v.distinct;
    }
Watched-IsKept (unsubscribes {o} t w) =
    let v = Watched-IsKept w in
    record {
      exact = v.exact;
      running = v.running;
      sorted = v.sorted;
      issued = Issued-drop_token o.token_gen t o.subscriptions v.issued;
      distinct = Distinct-drop_token t o.subscriptions v.distinct;
    }
Watched-IsKept (reacts {o} xs ys op r e w) =
    let v = Watched-IsKept w in
    react-IsKept op r (leaving xs ys o) (record {
      exact = ground (arith, length-middle xs ys op);
      running = v.running;
      sorted = v.sorted;
      issued = v.issued;
      distinct = v.distinct;
    })
