-- ===== src/Candidate/Succession.antt =====
-- The succession: from the watcher of the predecessor to the election of the candidate.
use gee_h.Prelude.{
  has_prefix, ◌<◌, ◌≤◌, ℕ, ◌≡◌, refl, ap, true, false, List, [], ◌∷◌, ◌++◌, arith, bytes_eq_refl,
  if◌then◌else◌, ℤ, pos, negsuc, increment, decrement, zero, suc,
}
use gee_h.Effect.{Completion, set_value}
use gee_h.Etcd.{KeyValue, Event, delete, RangeRequest, RangeResponse, WatchResponse}
use gee_h.Candidate.{range_query, watch_read, Candidate, election_result}
use gee_h.Candidate.Query.{
  predecessor_request, on_range_request, insert_key, create_watcher, watch_op, watch_all,
  check_election_over_maybe, query_predecessor, erase_key,
}
use gee_h.Candidate.Watch.{
  is_cancelled, on_watch_create, on_watch_read, erase_deleted, insert_watch, read_again, follow_up,
  note_response,
}
use gee_h.Counter.{async_op_start, async_op_done, in_shutdown}
use gee_h.Candidate.Leader.{unopposed}
use gee_h.Candidate.Key.{election_prefix}
use gee_h.Candidate.Election.{EtcdRange, answer, selects-predecessor_request}
use mathlib.Core.List.{Memᴰ}

-- A query that is answered with one key.
abbrev pub opposed : KeyValue → ℕ → Completion RangeResponse
opposed kv revision = record {
  ok = true;
  status = 0;
  response = record { revision = revision; kvs = kv ∷ [] };
}

increment-decrement : (z : ℤ) → increment (decrement z) ≡ z
increment-decrement (pos zero) = refl
increment-decrement (pos (suc n)) = refl
increment-decrement (negsuc n) = refl

asks :
    (c : Candidate) (kv : KeyValue) (revision : ℕ)
    → c.ops.shutdown ≡ false
    → c.watched_keys ≡ []
    → (on_range_request (opposed kv revision) c).0
      ≡ record c { watched_keys = kv.key ∷ []; queue = c.queue ++ watch_op kv revision ∷ [] }
unfolding on_range_request watch_all create_watcher insert_key check_election_over_maybe
    async_op_start async_op_done
asks c kv revision o w = simp (o, w, increment-decrement c.ops.pending) (ground arith)

watches :
    (c : Candidate) (key : List ℕ) (revision : ℕ)
    → c.reads.shutdown ≡ false
    → on_watch_create true key revision c ≡ record c {
      ops = record c.ops { pending = decrement c.ops.pending };
      reads = record c.reads { pending = increment c.reads.pending };
      queue = c.queue ++ watch_read key revision ∷ [];
    }
unfolding on_watch_create read_again async_op_start async_op_done
watches c key revision o = simp o (ground arith)

asks_again :
    (c : Candidate) (key : List ℕ) (gone : Event) (r : WatchResponse) (revision : ℕ)
    → c.ops.shutdown ≡ false
    → c.watched_keys ≡ key ∷ []
    → gone.type ≡ delete
    → gone.prev_kv.key ≡ key
    → r.events ≡ gone ∷ []
    → is_cancelled r ≡ false
    → on_watch_read true r key revision c ≡ record c {
      current_watches =
          if r.created then insert_watch r.watch_id c.current_watches else c.current_watches;
      watched_keys = [];
      ops = record c.ops { pending = increment c.ops.pending };
      reads = record c.reads { pending = decrement c.reads.pending };
      queue = c.queue ++ range_query (predecessor_request c) ∷ [];
    }
unfolding on_watch_read follow_up note_response query_predecessor predecessor_request erase_deleted
    erase_key async_op_start async_op_done in_shutdown
asks_again c key gone r revision o w t k e n =
    simp (o, w, t, k, e, n, bytes_eq_refl key) (ground arith)

wins :
    (c : Candidate) (revision : ℕ)
    → c.watched_keys ≡ []
    → (on_range_request (unopposed revision) c).0
      ≡ election_result true (record c { ops = record c.ops { pending = decrement c.ops.pending } })
unfolding on_range_request watch_all check_election_over_maybe async_op_done election_result
wins c revision w = simp w (ground arith)

-- A candidate that has no key to watch, and whose query is answered with the key of a predecessor,
-- watches that key. When the watcher is there and reports that the key was deleted, the candidate asks
-- again, before which nothing elects it. If no older key is left, it is elected, and the promise has
-- the result `true` unless it had one.
pub succeeds :
    (c : Candidate) (kv : KeyValue) (gone : Event) (r : WatchResponse) (asked answered : ℕ)
    → c.ops.shutdown ≡ false
    → c.reads.shutdown ≡ false
    → c.watched_keys ≡ []
    → c.queue ≡ []
    → gone.type ≡ delete
    → gone.prev_kv.key ≡ kv.key
    → r.events ≡ gone ∷ []
    → is_cancelled r ≡ false
    → let watching = (on_range_request (opposed kv asked) c).0 in
      let watched = on_watch_create true kv.key asked (record watching { queue = [] }) in
      let free = on_watch_read true r kv.key asked (record watched { queue = [] }) in
      let leading = (on_range_request (unopposed answered) (record free { queue = [] })).0 in
      (watching.queue ≡ watch_op kv asked ∷ [])
      × (watched.queue ≡ watch_read kv.key asked ∷ [])
      × (free.queue ≡ range_query (predecessor_request c) ∷ [])
      × (free.elected ≡ c.elected)
      × (leading.elected ≡ true)
      × (leading.promise ≡ set_value c.promise true)
      × (leading.queue ≡ [])
      × (leading.ops.pending ≡ decrement c.ops.pending)
unfolding election_result predecessor_request
succeeds c kv gone r asked answered o rd w q t k e n =
    let one = record c { watched_keys = kv.key ∷ []; queue = [] } in
    let two = record one {
      ops = record c.ops { pending = decrement c.ops.pending };
      reads = record c.reads { pending = increment c.reads.pending };
    } in
    let three = record two {
      current_watches =
          if r.created then insert_watch r.watch_id c.current_watches else c.current_watches;
      watched_keys = [];
      ops = record c.ops { pending = increment (decrement c.ops.pending) };
      reads = record c.reads { pending = decrement (increment c.reads.pending) };
    } in
    rw
      (
        asks c kv asked o w,
        watches one kv.key asked rd,
        asks_again two kv.key gone r asked o refl t k e n,
        wins three answered refl,
        q,
      )
      (refl, refl, refl, refl, refl, refl, refl, ap decrement (increment-decrement c.ops.pending))

on_range_request_none :
    (op : Completion RangeResponse) (c : Candidate)
    → op.ok ≡ true
    → op.status ≡ 0
    → op.response.kvs ≡ []
    → c.watched_keys ≡ []
    → (on_range_request op c).0.elected ≡ true
unfolding on_range_request watch_all check_election_over_maybe election_result
on_range_request_none op c o z e w = rw (o, z, e) (ground arith)

module _ {W : Type 0} (store : W → List KeyValue) (range : W → RangeRequest → RangeResponse)
    (laws : EtcdRange store range) where
  -- A candidate that watches no key, and whose key was created after the server's first revision, is
  -- elected by the answer to its query if no key of the election is older at the state of the server
  -- that answered.
  pub oldest_elected :
      (c : Candidate) (name : List ℕ) (w : W)
      → c.election_prefix ≡ election_prefix name
      → 1 < c.creation_revision
      → c.watched_keys ≡ []
      → ((kv : KeyValue)
          → Memᴰ kv (store w)
          → has_prefix (election_prefix name) kv.key ≡ true
          → c.creation_revision ≤ kv.create_revision)
      → (on_range_request (answer range w c) c).0.elected ≡ true
  oldest_elected c name w e h watched oldest = go (range w (predecessor_request c)).kvs refl
    where
      go :
          (kvs : List KeyValue)
          → (range w (predecessor_request c)).kvs ≡ kvs
          → (on_range_request (answer range w c) c).0.elected ≡ true
      go [] none = on_range_request_none (answer range w c) c refl refl none watched
      go (kv ∷ kvs) some =
          let mine = laws.selected w (predecessor_request c) kv kvs some in
          let s = selects-predecessor_request c name kv e h in
          let there = laws.present w (predecessor_request c) kv kvs some in
          absurd (ground (arith, mine, s, oldest kv there (ground (arith, mine, s))))
