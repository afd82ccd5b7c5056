-- ===== src/Candidate/Leader.antt =====
-- The result of an election: what settles it, and two histories that leave it wrong.
use gee_h.Prelude.{ℕ, ◌≡◌, true, false, none, some, List, [], ◌∷◌, ◌++◌, arith}
use gee_h.Counter.{in_shutdown}
use gee_h.Effect.{Completion}
use gee_h.Etcd.{RangeRequest, RangeResponse, WatchResponse}
use gee_h.Candidate.{Op, range_query, Candidate, election_result}
use gee_h.Candidate.Query.{predecessor_request, on_range_request}
use gee_h.Candidate.Watch.{is_cancelled, on_watch_read, erase_deleted}
use gee_h.Candidate.Resign.{System, resign_close, Reply, callback}
use gee_h.Candidate.Resign.Steps.{taken}

-- A query that is answered without a key.
abbrev pub unopposed : ℕ → Completion RangeResponse
unopposed revision = record {
  ok = true;
  status = 0;
  response = record { revision = revision; kvs = [] };
}

-- A candidate that watches a key, and whose watcher is cancelled (by compaction, say) without an
-- event, asks again. If the key was deleted in the meantime, so that no older key is left, the
-- answer settles nothing: the stale key still counts as watched. No operation is left in the
-- completion queue, so the candidate waits forever.
pub stale_watch :
    (c : Candidate) (r : WatchResponse) (wkey k : List ℕ) (ks : List (List ℕ))
    (wrevision revision : ℕ)
    → c.ops.shutdown ≡ false
    → c.queue ≡ []
    → c.watched_keys ≡ k ∷ ks
    → is_cancelled r ≡ true
    → r.events ≡ []
    → let d = on_watch_read true r wkey wrevision c in
      let e = (on_range_request (unopposed revision) (record d { queue = [] })).0 in
      (d.queue ≡ range_query (predecessor_request c) ∷ [])
      × (e.queue ≡ [])
      × (e.elected ≡ c.elected)
      × (e.promise ≡ c.promise)
unfolding on_watch_read on_range_request erase_deleted in_shutdown election_result
    predecessor_request
stale_watch c r wkey k ks wrevision revision o q w x n = rw n (ground arith)

-- If a query is in flight when `resign()` ends, its answer can elect the candidate afterwards: the
-- promise says that the candidate lost, and `elected()` that it leads.
pub elected_after_resign :
    (s : System) (xs ys : List Op) (req : RangeRequest) (r : Reply)
    → s.candidate.queue ≡ xs ++ range_query req ∷ ys
    → s.candidate.watched_keys ≡ []
    → s.candidate.promise.value ≡ none
    → r.ok ≡ true
    → r.status ≡ 0
    → r.range.kvs ≡ []
    → let t = (resign_close true true 0 s).0 in
      let u = (callback (range_query req) r (taken xs ys t)).0 in
      (t.candidate.queue ≡ xs ++ range_query req ∷ ys)
      × (u.candidate.promise.value ≡ some false)
      × (u.candidate.elected ≡ true)
unfolding resign_close callback election_result
elected_after_resign s xs ys req r q w p o z e = rw (o, z, e) (ground arith)
