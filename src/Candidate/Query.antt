-- ===== src/Candidate/Query.antt =====
-- The query for the candidate's predecessor, and its answer.
use gee_h.Prelude.{ℕ, sub_ℕ, Bool, true, false, List, [], ◌∷◌, if◌then◌else◌, bytes_eq}
use gee_h.PrefixEnd.{prefix_end}
use gee_h.Counter.{in_shutdown, async_op_start, async_op_done}
use gee_h.Effect.{M, ◌>>=◌, ◌>>◌, pure, modify, when, Completion, check_grpc_status}
use gee_h.Etcd.{KeyValue, RangeRequest, RangeResponse, descend, by_create, create_request}
use gee_h.Candidate.{Op, Candidate, range_query, watch_create, post, election_result}

-- The key with the largest creation revision below the candidate's, among those with the prefix.
unfoldable pub predecessor_request : Candidate → RangeRequest
predecessor_request c = record {
  key = c.election_prefix;
  range_end = prefix_end c.election_prefix;
  max_create_revision = sub_ℕ c.creation_revision 1;
  sort_order = descend;
  sort_target = by_create;
  limit = 1;
}

-- The result of `async_op_start` is not read.
unfoldable pub query_predecessor : Candidate → Candidate
unfolding in_shutdown async_op_start
query_predecessor c =
    if in_shutdown c.ops
    then election_result false c
    else post (range_query (predecessor_request c)) (record c { ops = (async_op_start c.ops).0 })

-- `insert` and `erase` of `std::set<std::string>`; the order of the keys is never used.
unfoldable pub insert_key : List ℕ → List (List ℕ) → List (List ℕ)
insert_key k [] = k ∷ []
insert_key k (j ∷ ks) = if bytes_eq j k then j ∷ ks else j ∷ insert_key k ks

unfoldable pub erase_key : List ℕ → List (List ℕ) → List (List ℕ)
erase_key k [] = []
erase_key k (j ∷ ks) = if bytes_eq j k then ks else j ∷ erase_key k ks

abbrev pub is_empty {ℓ} : {A : Type ℓ} → List A → Bool
is_empty [] = true
is_empty (x ∷ xs) = false

unfoldable pub check_election_over_maybe : Candidate → Candidate
check_election_over_maybe c = if is_empty c.watched_keys then election_result true c else c

-- A watcher for one key, from the revision at which the query was answered.
unfoldable pub watch_op : KeyValue → ℕ → Op
watch_op kv revision =
    watch_create
      (create_request (record {
        key = kv.key;
        range_end = [];
        start_revision = revision;
        prev_kv = true;
        progress_notify = false;
      }))
      kv.key revision

-- One round of the loop in `on_range_request`, once the operation is counted.
unfoldable pub create_watcher : KeyValue → ℕ → Candidate → Candidate
unfolding insert_key watch_op
create_watcher kv revision c =
    post (watch_op kv revision) (record c { watched_keys = insert_key kv.key c.watched_keys })

-- The loop of `on_range_request`; `false` if it returned from the function.
unfoldable pub watch_all : List KeyValue → ℕ → M Candidate Bool
unfolding create_watcher async_op_start
watch_all [] revision c = pure true c
watch_all (kv ∷ kvs) revision c =
    let (ops, started) = async_op_start c.ops in
    let next = watch_all kvs revision (create_watcher kv revision (record c { ops = ops })) in
    if started then next else pure false (record c { ops = ops })

unfoldable pub on_range_request : Completion RangeResponse → M Candidate (Unit {0})
unfolding watch_all check_election_over_maybe async_op_done
on_range_request op c =
    if op.ok
    then ((do
      modify λ c. record c { ops = async_op_done c.ops }
      check_grpc_status op.status
      finished ← watch_all op.response.kvs op.response.revision
      when finished (modify check_election_over_maybe))
        c)
    else pure tt (election_result false c)
