-- ===== src/Observer/Tests.antt =====
-- An observer that starts, finds a leader, and sees it replaced.
use gee_h.Prelude.{suc, none, some, if◌then◌else◌, ◌≤◌, ◌≡◌, refl, pos, true, false, [], ◌∷◌, ◌++◌}
use gee_h.Counter.{all_done}
use gee_h.Counter
use gee_h.PrefixEnd.{prefix_end}
use gee_h.Candidate.Key.{election_prefix}
use gee_h.Etcd.{RangeRequest, ascend, by_create, KeyValue, Event, put, delete, WatchResponse}
use gee_h.Observer.{
  find_leader, Observer, new, find, assign, leader, notices_of, subscribe, unsubscribe, current_key,
  current_value, handle_node_put, handle_node_delete, call_subscribers,
}
use gee_h.Observer.Events.{
  startup, start_op, create_watcher_stream, discover_node_with_lowest_creation_revision, cleanup,
  create_watcher, watch_from, report_election_leader, on_range_request, on_watch_read,
  watch_request, handle_event, handle_events,
}
use gee_h.Observer.Changes.{replaces, all_latest, find-handle_events, on_watch_read-notices}
use gee_h.Observer.Histories.{Report, react, leaving, Watched, created, starts, subscribes, reacts}
use gee_h.Observer.Waits.{ends, all_done-cleanup}
use gee_h.Observer.Tokens.{subscriber_of, unsubscribe-subscribe}
use gee_h.Observer.Current.{current_key-latest}
use gee_h.Effect.{returns}

abbrev ann : KeyValue
ann = record { key = 1 ∷ []; value = 10 ∷ []; create_revision = 3 }

abbrev bob : KeyValue
bob = record { key = 2 ∷ []; value = 20 ∷ []; create_revision = 5 }

abbrev quiet : WatchResponse
quiet = record {
  watch_id = 0;
  created = false;
  canceled = false;
  compact_revision = 0;
  events = [];
}

abbrev removed : Event
removed = record { type = delete; kv = ann; prev_kv = ann }

abbrev joined : Event
joined = record { type = put; kv = bob; prev_kv = bob }

abbrev news : WatchResponse
news = record quiet { events = joined ∷ removed ∷ [] }

abbrev found : Report
found = record {
  ok = true;
  status = 0;
  range = record { revision = 4; kvs = ann ∷ [] };
  watch = quiet;
}

waiting : Observer
unfolding new Counter.new startup create_watcher_stream discover_node_with_lowest_creation_revision
    start_op subscribe
waiting = (startup true (subscribe 7 (new (1 ∷ []))).0).0

waiting-Watched : Watched waiting
unfolding waiting
waiting-Watched = starts true (subscribes 7 (created (1 ∷ [])))

abbrev question : RangeRequest
question = record {
  key = 1 ∷ b'/' ∷ [];
  range_end = 1 ∷ suc b'/' ∷ [];
  max_create_revision = pos 0;
  sort_order = ascend;
  sort_target = by_create;
  limit = 1;
}

led : Observer
unfolding waiting react on_range_request watch_from create_watcher report_election_leader
    handle_node_put assign find call_subscribers notices_of start_op
led = react (find_leader question) found (leaving [] [] waiting)

led-Watched : Watched led
unfolding led prefix_end election_prefix
led-Watched = reacts [] [] (find_leader question) found refl waiting-Watched

told : led.notices ≡ record { subscriber = 7; key = 1 ∷ []; value = 10 ∷ [] } ∷ []
unfolding led
told = refl

current_key-latest_example :
    let d = on_watch_read true news led in
    (p : KeyValue) × (current_key d ≡ returns p.key)
    × (current_value d ≡ returns p.value)
    × (all_latest p.create_revision news.events (find p.create_revision led.participants) ≡ some p)
    × (p.create_revision ≤ 5)
unfolding led find
current_key-latest_example = current_key-latest led news 5 bob led-Watched refl refl

-- The subscriber 7 has the token 1 and keeps it.
unsubscribe-subscribe_example :
    subscriber_of 1 (unsubscribe 2 (subscribe 8 led).0).subscriptions ≡ some 7
unfolding led subscribe subscriber_of
unsubscribe-subscribe_example = unsubscribe-subscribe led 8 2 1 led-Watched

all_done-cleanup_example : ends (found ∷ []) (cleanup led) ≡ some true
unfolding led watch_request
all_done-cleanup_example = all_done-cleanup led (found ∷ []) led-Watched refl

find-handle_events_example :
    find 3 (handle_events (joined ∷ removed ∷ []) (ann ∷ []) false).0 ≡ none
unfolding find
find-handle_events_example = find-handle_events 3 (joined ∷ removed ∷ []) (ann ∷ []) false (tt, tt)

on_watch_read-notices_example :
    let d = on_watch_read true news led in
    d.notices
    ≡ led.notices
      ++ (if replaces news.events led.participants
          then notices_of (leader d.participants) led.subscriptions
          else [])
unfolding led
on_watch_read-notices_example = on_watch_read-notices news led (tt, tt) refl

replaced :
    (on_watch_read true news led).notices
    ≡ led.notices ++ record { subscriber = 7; key = 2 ∷ []; value = 20 ∷ [] } ∷ []
unfolding led on_watch_read handle_event handle_events handle_node_delete
replaced = refl
