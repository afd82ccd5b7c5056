-- ===== src/Candidate.antt =====
-- gh/detail/election_candidate_impl.hpp: one candidate of an election. Its operations stand in the
-- child modules: `Key` the constructor, `Query` and `Watch` the callbacks of the completion queue,
-- `Campaign` the blocking calls that create the node, `Resign` the shutdown.
pub mod Key
pub mod Query
pub mod Watch
pub mod Balance
pub mod Campaign
pub mod Resign
pub mod Election
pub mod Leader
pub mod History
pub mod Succession
pub mod Protocol
mod Tests
use gee_h.Prelude.{ℕ, Bool, false, List, [], ◌∷◌, ◌++◌}
use gee_h.Effect.{Promise, unset, set_value}
use gee_h.Etcd.{RangeRequest, WatchRequest}
use gee_h.Counter.{Counter}
use gee_h.Counter
use Key.{election_prefix, candidate_key}

-- An operation that the candidate has posted to the completion queue and whose callback has not
-- run: the request, and what the lambda captures.
pub data Op : Type 0 where
  range_query : RangeRequest → Op
  watch_create : WatchRequest → List ℕ → ℕ → Op
  watch_read : List ℕ → ℕ → Op
  watch_cancel : WatchRequest → ℕ → Op

-- The members of the class. `stream` tells whether `watcher_stream_` is set; the last field holds
-- the operations in the completion queue.
pub record Candidate : Type 0 where
  pub lease_id : ℕ
  pub election_prefix : List ℕ
  pub candidate_value : List ℕ
  pub candidate_key : List ℕ
  pub creation_revision : ℕ
  pub stream : Bool
  pub current_watches : List ℕ
  pub watched_keys : List (List ℕ)
  pub elected : Bool
  pub promise : Promise Bool
  pub ops : Counter
  pub reads : Counter
  pub queue : List Op

-- A call of the completion queue that starts an operation.
abbrev pub post : Op → Candidate → Candidate
post op c = record c { queue = c.queue ++ op ∷ [] }

-- `election_result()`: the first result stays in the promise, the last one in `elected_`.
unfoldable pub election_result : Bool → Candidate → Candidate
election_result result c = record c { elected = result; promise = set_value c.promise result }

-- The constructor.
unfoldable pub new : ℕ → List ℕ → List ℕ → Candidate
new lease_id election_name candidate_value = record {
  lease_id = lease_id;
  election_prefix = election_prefix election_name;
  candidate_value = candidate_value;
  candidate_key = candidate_key election_name lease_id;
  creation_revision = 0;
  stream = false;
  current_watches = [];
  watched_keys = [];
  elected = false;
  promise = unset;
  ops = Counter.new;
  reads = Counter.new;
  queue = [];
}
