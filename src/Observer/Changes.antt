-- ===== src/Observer/Changes.antt =====
-- What a response of the watcher does: the participants, and the calls of the subscribers.
use mathlib.Core.List.{append-nil}
use gee_h.Prelude.{
  ℕ, ◌≡◌, refl, ap, ◌∙◌, Bool, true, false, not, ◌||◌, List, [], ◌∷◌, ◌++◌, Option, none, some,
  if◌then◌else◌, ◌==◌, arith, bytes_eq_refl,
}
use gee_h.Etcd.{KeyValue, Event, put, delete, other, WatchResponse}
use gee_h.Candidate.Watch.{is_cancelled}
use gee_h.Observer.{
  Observer, find, handle_node_put, handle_node_delete, leader, notices_of, call_subscribers,
}
use gee_h.Observer.Events.{handle_event, handle_events, start_op, on_watch_read}
use gee_h.Observer.Leader.{
  IsSorted, assign-IsSorted, erase-IsSorted, find-assign, find-erase, same_leader,
  handle_node_put-same_leader, handle_node_delete-same_leader,
}

handle_event-IsSorted :
    (ev : Event) (ps : List KeyValue) → IsSorted ps → IsSorted (handle_event ev ps).0
unfolding handle_event handle_node_put handle_node_delete
handle_event-IsSorted ev ps s =
    ground (arith, assign-IsSorted ev.kv ps, erase-IsSorted ev.prev_kv.create_revision ps)

pub handle_events-IsSorted :
    (evs : List Event) (ps : List KeyValue) (b : Bool)
    → IsSorted ps
    → IsSorted (handle_events evs ps b).0
unfolding handle_events
handle_events-IsSorted [] ps b s = s
handle_events-IsSorted (ev ∷ evs) ps b s =
    let (qs, now) = handle_event ev ps in
    handle_events-IsSorted evs qs (now || b) (handle_event-IsSorted ev ps s)

-- The value that the events leave at the creation revision `r`, which had the value `old`.
abbrev pub latest : ℕ → Event → Option KeyValue → Option KeyValue
latest r ev old = elim ev.type [
  | put ↦ if ev.kv.create_revision == r then some ev.kv else old
  | delete ↦ if ev.prev_kv.create_revision == r then none else old
  | other ↦ old
]

abbrev pub all_latest : ℕ → List Event → Option KeyValue → Option KeyValue
all_latest r [] old = old
all_latest r (ev ∷ evs) old = all_latest r evs (latest r ev old)

find-handle_event :
    (r : ℕ) (ev : Event) (ps : List KeyValue)
    → IsSorted ps
    → find r (handle_event ev ps).0 ≡ latest r ev (find r ps)
unfolding handle_event handle_node_put handle_node_delete
find-handle_event r ev ps s =
    ground (arith, find-assign r ev.kv ps, find-erase r ev.prev_kv.create_revision ps)

-- After any events on participants in the map's order, the map holds at each creation revision what
-- the last event about it left there: the entry that it put, or none if it deleted it.
pub find-handle_events :
    (r : ℕ) (evs : List Event) (ps : List KeyValue) (b : Bool)
    → IsSorted ps
    → find r (handle_events evs ps b).0 ≡ all_latest r evs (find r ps)
unfolding handle_events
find-handle_events r [] ps b s = refl
find-handle_events r (ev ∷ evs) ps b s =
    let (qs, now) = handle_event ev ps in
    find-handle_events r evs qs (now || b) (handle_event-IsSorted ev ps s)
    ∙ ap (all_latest r evs) (find-handle_event r ev ps s)

same_leader_refl : (p : Option KeyValue) → same_leader p p ≡ true
same_leader_refl none = refl
same_leader_refl (some p) = ground (arith, bytes_eq_refl p.value)

handle_event-same_leader :
    (ev : Event) (ps : List KeyValue)
    → IsSorted ps
    → (handle_event ev ps).1 ≡ not (same_leader (leader ps) (leader (handle_event ev ps).0))
unfolding handle_event
handle_event-same_leader ev ps s = ground (
  arith,
  handle_node_put-same_leader ev.kv ps,
  handle_node_delete-same_leader ev.prev_kv ps,
  same_leader_refl (leader ps),
)

-- Whether one of the events leaves another leader, or another value of it, than there was before it.
unfoldable pub replaces : List Event → List KeyValue → Bool
unfolding handle_event
replaces [] ps = false
replaces (ev ∷ evs) ps =
    let qs = (handle_event ev ps).0 in not (same_leader (leader ps) (leader qs)) || replaces evs qs

handle_events-replaces :
    (evs : List Event) (ps : List KeyValue) (b : Bool)
    → IsSorted ps
    → (handle_events evs ps b).1 ≡ (replaces evs ps || b)
unfolding handle_events replaces
handle_events-replaces [] ps b s = refl
handle_events-replaces (ev ∷ evs) ps b s =
    let (qs, now) = handle_event ev ps in
    ground (
      arith,
      handle_events-replaces evs qs (now || b) (handle_event-IsSorted ev ps s),
      handle_event-same_leader ev ps s,
    )

-- On participants in the map's order, a response that does not end the watcher calls the subscribers
-- exactly if one of its events replaces the leader or the leader's value. Then it calls each of them
-- once, with the leader that the response leaves.
pub on_watch_read-notices :
    (r : WatchResponse) (o : Observer)
    → IsSorted o.participants
    → is_cancelled r ≡ false
    → let d = on_watch_read true r o in
      d.notices
      ≡ o.notices
        ++ (if replaces r.events o.participants
            then notices_of (leader d.participants) o.subscriptions
            else [])
unfolding on_watch_read call_subscribers start_op
on_watch_read-notices r o s h =
    ground (arith, handle_events-replaces r.events o.participants false s, append-nil o.notices)
