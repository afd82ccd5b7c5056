-- ===== src/Observer/Scenarios.antt =====
-- gh/detail/election_observer_impl_ut.cpp on the model: the stages of its tests, and their
-- expectations. Where a mock calls a callback at once, the operation is completed by the next step.
use gee_h.Prelude.{ℕ, ◌≡◌, refl, Bool, true, false, Option, none, some, List, [], ◌∷◌, ◌++◌}
use gee_h.Counter.{Counter, all_done}
use gee_h.Counter
use gee_h.Effect.{Outcome, returns, throws, called_before_startup, empty_election}
use gee_h.Etcd.{KeyValue, Event, put, delete, WatchResponse}
use gee_h.Observer.{
  Observer, Notice, new, subscribe, unsubscribe, has_leader, current_key, current_value, find,
  assign, erase, handle_node_put, handle_node_delete, drop_token, call_subscribers, notices_of,
}
use gee_h.Observer.Events.{
  startup, shutdown, cleanup, start_op, create_watcher_stream, create_watcher, cancel_watcher,
  discover_node_with_lowest_creation_revision, watch_from, report_election_leader, on_range_request,
  on_watch_create, on_watch_cancel, on_watch_read, watch_request, handle_event, handle_events,
}
use gee_h.Observer.Histories.{Report, react}
use gee_h.Observer.Waits.{reacted}

abbrev mock_election : List ℕ
mock_election =
    b'm' ∷ b'o' ∷ b'c' ∷ b'k' ∷ b'-' ∷ b'e' ∷ b'l' ∷ b'e' ∷ b'c' ∷ b't' ∷ b'i' ∷ b'o' ∷ b'n' ∷ []

abbrev late_subscription : List ℕ
late_subscription =
    b'l' ∷ b'a' ∷ b't' ∷ b'e' ∷ b'-' ∷ b's' ∷ b'u' ∷ b'b' ∷ b's' ∷ b'c' ∷ b'r' ∷ b'i' ∷ b'p' ∷ b't'
    ∷ b'i' ∷ b'o' ∷ b'n' ∷ []

-- The node 2000 or 2200 of an election.
abbrev node : List ℕ → ℕ → ℕ → List ℕ → KeyValue
node election digit revision value = record {
  key = election ++ b'/' ∷ b'2' ∷ digit ∷ b'0' ∷ b'0' ∷ [];
  value = value;
  create_revision = revision;
}

abbrev abc : ℕ → List ℕ
abc digit = b'a' ∷ b'b' ∷ b'c' ∷ b'2' ∷ digit ∷ b'0' ∷ b'0' ∷ []

abbrev bcd2200 : List ℕ
bcd2200 = b'b' ∷ b'c' ∷ b'd' ∷ b'2' ∷ b'2' ∷ b'0' ∷ b'0' ∷ []

abbrev cde2200 : List ℕ
cde2200 = b'c' ∷ b'd' ∷ b'e' ∷ b'2' ∷ b'2' ∷ b'0' ∷ b'0' ∷ []

abbrev no_watch : WatchResponse
no_watch = record {
  watch_id = 0;
  created = false;
  canceled = false;
  compact_revision = 0;
  events = [];
}

abbrev found_keys : List KeyValue → Report
found_keys kvs = record {
  ok = true;
  status = 0;
  range = record { revision = 0; kvs = kvs };
  watch = no_watch;
}

abbrev ok_report : Report
ok_report = found_keys []

abbrev cancelled : Report
cancelled = record ok_report { ok = false }

abbrev reported : List Event → Report
reported evs = record ok_report { watch = record no_watch { watch_id = 3000; events = evs } }

abbrev nobody : KeyValue
nobody = record { key = []; value = []; create_revision = 0 }

abbrev puts : KeyValue → Event
puts kv = record { type = put; kv = kv; prev_kv = nobody }

abbrev deletes : KeyValue → Event
deletes kv = record { type = delete; kv = nobody; prev_kv = kv }

-- The first operation in the queue completes.
unfoldable complete : Report → Observer → Observer
unfolding reacted react on_range_request on_watch_create on_watch_cancel on_watch_read watch_from
    create_watcher watch_request report_election_leader handle_events handle_event handle_node_put
    handle_node_delete find assign erase call_subscribers notices_of start_op
complete r o = reacted r o

-- `startup()` with the mocks: the stream, the query and its answer, and the watcher.
unfoldable started : List KeyValue → Observer → Observer
unfolding startup create_watcher_stream discover_node_with_lowest_creation_revision start_op
    complete
started kvs o = complete ok_report (complete (found_keys kvs) (startup true o).0)

-- The destructor, whose `try_cancel_on` completes the read.
unfoldable destroyed : Observer → Option Counter
unfolding cleanup complete
destroyed o = elim (cleanup o) [ none ↦ none | some p ↦ some (complete cancelled p).ops ]

abbrev waits_end : Option Counter → Bool
waits_end none = false
waits_end (some c) = all_done c

-- `TEST(basic)`, up to the destructor.
unfoldable basic : Observer
unfolding new Counter.new started complete
basic = complete ok_report (started [] (new mock_election))

basic_test :
    (has_leader basic ≡ false)
    × (current_key basic ≡ throws empty_election)
    × (current_value basic ≡ throws empty_election)
    × (waits_end (destroyed basic) ≡ true)
unfolding basic has_leader current_key current_value destroyed all_done
basic_test = (refl, refl, refl, refl)

-- `TEST(normal_lifecycle)`: the leader is found; events that tell nothing new; the leader leaves; the
-- subscriber leaves.
abbrev first : KeyValue
first = node mock_election b'0' 1000 (abc b'0')

abbrev second : List ℕ → KeyValue
second value = node mock_election b'2' 1100 value

unfoldable normal_found : Observer
unfolding new Counter.new subscribe started
normal_found = started (first ∷ []) (subscribe 7 (new mock_election)).0

unfoldable normal_same : Observer
unfolding normal_found complete
normal_same = complete (reported (puts first ∷ puts (second (abc b'2')) ∷ [])) normal_found

unfoldable normal_replaced : Observer
unfolding normal_same complete
normal_replaced = complete (reported (deletes first ∷ puts (second bcd2200) ∷ [])) normal_same

unfoldable normal_lifecycle : Observer
unfolding normal_replaced unsubscribe drop_token complete
normal_lifecycle = complete (reported (puts (second cde2200) ∷ [])) (unsubscribe 1 normal_replaced)

abbrev notice : KeyValue → Notice
notice kv = record { subscriber = 7; key = kv.key; value = kv.value }

normal_found_test :
    (current_key normal_found ≡ returns first.key)
    × (current_value normal_found ≡ returns (abc b'0'))
    × (normal_found.notices ≡ notice first ∷ [])
    × (normal_same.notices ≡ normal_found.notices)
unfolding normal_found normal_same current_key current_value
normal_found_test = (refl, refl, refl, refl)

normal_replaced_test :
    (has_leader normal_replaced ≡ true)
    × (current_key normal_replaced ≡ returns (second bcd2200).key)
    × (current_value normal_replaced ≡ returns bcd2200)
    × (normal_replaced.notices ≡ notice first ∷ notice (second bcd2200) ∷ [])
unfolding normal_replaced has_leader current_key current_value
normal_replaced_test = (refl, refl, refl, refl)

normal_lifecycle_test :
    (current_value normal_lifecycle ≡ returns cde2200)
    × (normal_lifecycle.notices ≡ normal_replaced.notices)
    × (waits_end (destroyed normal_lifecycle) ≡ true)
unfolding normal_lifecycle normal_replaced current_value destroyed all_done
normal_lifecycle_test = (refl, refl, refl)

-- `shutdown()` while a read is on its way, and the completion of its write.
unfoldable stopped : Observer → Observer
unfolding shutdown cancel_watcher start_op react on_watch_cancel
stopped o =
    let p = (shutdown o).0 in
    elim p.queue [
      | [] ↦ p
      | op ∷ ops ↦ elim ops [
        | [] ↦ p
        | next ∷ rest ↦ react next ok_report (record p { queue = op ∷ rest })
      ]
    ]

-- `TEST(late_subscription)`: the subscriber comes when the leader is known.
abbrev late_node : KeyValue
late_node = node late_subscription b'0' 1000 (abc b'0')

unfoldable late_subscribed : Observer
unfolding new Counter.new started subscribe
late_subscribed = (subscribe 7 (started (late_node ∷ []) (new late_subscription))).0

unfoldable late_stopped : Observer
unfolding late_subscribed unsubscribe drop_token stopped
late_stopped = stopped (unsubscribe 1 late_subscribed)

late_subscription_test :
    (late_subscribed.notices ≡ notice late_node ∷ [])
    × (late_stopped.subscriptions ≡ [])
    × (waits_end (destroyed late_stopped) ≡ true)
unfolding late_subscribed late_stopped destroyed all_done
late_subscription_test = (refl, refl, refl)

-- `TEST(full_shutdown)`: the subscriber comes first.
unfoldable full_shutdown : Observer
unfolding normal_found unsubscribe drop_token stopped
full_shutdown = stopped (unsubscribe 1 normal_found)

full_shutdown_test : waits_end (destroyed full_shutdown) ≡ true
unfolding full_shutdown destroyed all_done
full_shutdown_test = refl

-- `TEST(early_shutdown)`
unfoldable early_shutdown : Observer × Outcome (Unit {0})
unfolding new shutdown
early_shutdown = shutdown (new mock_election)

early_shutdown_test :
    (early_shutdown.1 ≡ throws called_before_startup) × (has_leader early_shutdown.0 ≡ false)
unfolding early_shutdown has_leader
early_shutdown_test = (refl, refl)
