-- ===== src/Candidate/Protocol/Unelected.antt =====
-- What the callbacks of a candidate leave as it is.
use gee_h.Prelude.{ℕ, ◌≡◌, Bool, true, false, ◌&&◌, List, [], ◌∷◌, ◌==◌, arith}
use gee_h.Effect.{Completion}
use gee_h.Etcd.{KeyValue, RangeResponse, WatchResponse}
use gee_h.Candidate.{Candidate, election_result}
use gee_h.Candidate.Query.{
  on_range_request, query_predecessor, watch_all, create_watcher, check_election_over_maybe,
}
use gee_h.Counter.{async_op_start, async_op_done}
use gee_h.Candidate.Campaign.{World, proclaim, proclaim_rest, publish_value, commit, transact}
use gee_h.Etcd.{TxnRequest, TxnResponse}
use gee_h.Candidate.Watch.{on_watch_create, on_watch_read}

-- What the queries and the watchers of a candidate do not change.
pub record IsSame (c d : Candidate) : Type 0 where
  pub same_prefix : d.election_prefix ≡ c.election_prefix
  pub same_key : d.candidate_key ≡ c.candidate_key
  pub same_lease : d.lease_id ≡ c.lease_id
  pub same_revision : d.creation_revision ≡ c.creation_revision

watch_all-IsSame :
    (kvs : List KeyValue) (revision : ℕ) (c : Candidate) → IsSame c (watch_all kvs revision c).0
unfolding watch_all create_watcher
watch_all-IsSame [] revision c = ground arith
watch_all-IsSame (kv ∷ kvs) revision c =
    let ops = (async_op_start c.ops).0 in
    ground
      (arith, watch_all-IsSame kvs revision (create_watcher kv revision (record c { ops = ops })))

pub on_range_request-IsSame :
    (op : Completion RangeResponse) (c : Candidate) → IsSame c (on_range_request op c).0
unfolding on_range_request check_election_over_maybe election_result
on_range_request-IsSame op c =
    let done = record c { ops = async_op_done c.ops } in
    ground (arith, watch_all-IsSame op.response.kvs op.response.revision done)

-- A callback that does not elect the candidate.
pub record IsFollowed (c d : Candidate) : Type 0 where
  pub same : IsSame c d
  pub elected_before : d.elected ≡ true → c.elected ≡ true

pub fails-IsFollowed :
    (op : Completion RangeResponse) (c : Candidate)
    → (op.ok && (op.status == 0)) ≡ false
    → IsFollowed c (on_range_request op c).0
unfolding on_range_request election_result
fails-IsFollowed op c h = ground arith

pub on_watch_create-IsFollowed :
    (ok : Bool) (wkey : List ℕ) (wrevision : ℕ) (c : Candidate)
    → IsFollowed c (on_watch_create ok wkey wrevision c)
unfolding on_watch_create
on_watch_create-IsFollowed ok wkey wrevision c = ground arith

pub on_watch_read-IsFollowed :
    (ok : Bool) (r : WatchResponse) (wkey : List ℕ) (wrevision : ℕ) (c : Candidate)
    → IsFollowed c (on_watch_read ok r wkey wrevision c)
unfolding on_watch_read query_predecessor election_result
on_watch_read-IsFollowed ok r wkey wrevision c = ground arith

pub resigns-IsFollowed : (c : Candidate) → IsFollowed c (election_result false c)
unfolding election_result
resigns-IsFollowed c = ground arith

pub proclaim-IsFollowed :
    {V : Type 0} (call : V → TxnRequest → V × Completion TxnResponse) (new_value : List ℕ)
    (w : World V)
    → IsFollowed w.candidate (proclaim call new_value w).0.candidate
unfolding proclaim proclaim_rest publish_value commit transact
proclaim-IsFollowed call new_value w = ground arith
