-- ===== src/Experiments/Compaction.antt =====
-- experiments/watcher_and_compaction.cpp: a session, two nodes that are changed, a compaction, and two
-- watchers. What the program prints is left out.
use gee_h.Prelude.{
  codes, ℕ, ◌+◌, Bool, true, false, not, List, [], ◌∷◌, ◌++◌, Option, none, some, ◌==◌,
}
use gee_h.Effect.{M, ◌>>=◌, ◌>>◌, pure, get, returns, throws, Completion}
use gee_h.Etcd.{
  KeyValue, TxnRequest, TxnResponse, LeaseGrantRequest, LeaseGrantResponse, WatchCreate,
  WatchRequest, create_request, cancel_request, WatchResponse,
}
use gee_h.Errors.{string, number}
use gee_h.Errors.Streams.{gh_assert_throw}
use gee_h.Candidate.Key.{hex}
use gee_h.Candidate.Query.{is_empty}
use gee_h.Session.{unopened}
use gee_h.Session.Lease.{Owner, open_stage, preamble, revoke}
use gee_h.Experiments.{Reply, PutRequest, check}
use gee_h.Experiments.Cluster.{created}
use gee_h.Experiments.Cluster as Cluster
use gee_h.Experiments.Failure.{exit_status}

-- The calls of the one channel, and of the watcher stream: a read gives none if it fails.
pub record Stubs (W : Type 0) : Type 0 where
  pub txn : TxnRequest → W → W × Reply TxnResponse
  pub put : PutRequest → W → W × Reply (Unit {0})
  pub delete_range : List ℕ → W → W × Reply ℕ
  pub compact : ℕ → Bool → W → W × Reply (Unit {0})
  pub watch_write : WatchRequest → W → W
  pub watch_read : W → W × Option WatchResponse

-- The session, the variable `watch_response`, and the server.
pub record Experiment (W : Type 0) : Type 0 where
  pub session : Owner
  pub watch_response : WatchResponse
  pub world : W

-- `make_key`; the given name starts with a slash.
unfoldable pub make_key : List ℕ → List ℕ → ℕ → List ℕ
unfolding hex
make_key prefix name lease = prefix ++ name ++ b'/' ∷ hex lease

-- The two watchers differ in the revision at which they start.
unfoldable pub create_watcher : List ℕ → ℕ → WatchCreate
create_watcher prefix revision = record {
  key = prefix ++ b'/' ∷ [];
  range_end = prefix ++ (b'/' + 1) ∷ [];
  start_revision = revision;
  prev_kv = true;
  progress_notify = true;
}

abbrev pub unset_response : WatchResponse
unset_response = record {
  watch_id = 0;
  created = false;
  canceled = false;
  compact_revision = 0;
  events = [];
}

-- `GH_ASSERT_THROW` in `main()`, with the text of the predicate and its line.
abbrev assert_in_main : {S : Type 0} → Bool → List ℕ → ℕ → M S (Unit {0})
assert_in_main p what lineno =
    get (gh_assert_throw p what (codes "main") (codes "watcher_and_compaction.cpp") lineno)

module _ {W : Type 0} (stubs : Stubs W) where
  abbrev call : {R : Type 0} → (W → W × R) → M (Experiment W) R
  call f c = let (w, r) = f c.world in (record c { world = w }, returns r)

  unfoldable pub create_node : List ℕ → ℕ → List ℕ → M (Experiment W) KeyValue
  unfolding Cluster.create_request created
  create_node key lease_id value = do
    r ← call (stubs.txn (Cluster.create_request key value lease_id))
    check r.status (codes "create_node()") (string key ∷ number lease_id ∷ [])
    created key value r.response

  -- The lease is only written into the text of an error.
  unfoldable pub update_node : List ℕ → ℕ → List ℕ → M (Experiment W) (Unit {0})
  update_node key lease_id value = do
    r ← call (stubs.put (record { key = key; value = value; lease = 0 }))
    check r.status (codes "update_node()") (string key ∷ number lease_id ∷ string value ∷ [])

  unfoldable pub delete_node : List ℕ → M (Experiment W) ℕ
  delete_node key = do
    r ← call (stubs.delete_range key)
    check r.status (codes "delete_node()") (string key ∷ [])
    pure r.response

  unfoldable pub compact : ℕ → M (Experiment W) (Unit {0})
  compact revision = do r ← call (stubs.compact revision true); check r.status (codes "main()") []

  -- `Write()` on the stream, whose result is not read.
  unfoldable pub write : WatchRequest → M (Experiment W) (Unit {0})
  write req = call (λ w. (stubs.watch_write req w, tt))

  abbrev received : WatchResponse → Option WatchResponse → WatchResponse
  received old none = old
  received old (some new) = new

  -- `Read()` into the variable, whose result is not read either; what the variable holds then.
  unfoldable pub read : M (Experiment W) WatchResponse
  read c =
      let (w, r) = stubs.watch_read c.world in
      let response = received c.watch_response r in
      (record c { watch_response = response; world = w }, returns response)

  -- From the deletion of the first node to the last update; the revision of the deletion.
  unfoldable pub delete_first : List ℕ → List ℕ → ℕ → M (Experiment W) ℕ
  unfolding update_node delete_node
  delete_first key0 key1 lease = do
    revision ← delete_node key0
    update_node key1 lease (codes "node1:1")
    pure revision

  unfoldable pub update_first : List ℕ → ℕ → M (Experiment W) (Unit {0})
  unfolding update_node
  update_first key0 lease = do
    update_node key0 lease (codes "node0:1")
    update_node key0 lease (codes "node0:2")
    update_node key0 lease (codes "node0:3")
    update_node key0 lease (codes "node0:4")
    update_node key0 lease (codes "node0:5")

  -- The nodes; the revision of the first one, and that of its deletion.
  unfoldable pub change_nodes : List ℕ → ℕ → M (Experiment W) (ℕ × ℕ)
  unfolding make_key create_node update_first delete_first
  change_nodes prefix lease =
      let key0 = make_key prefix (codes "/node0") lease in
      let key1 = make_key prefix (codes "/node1") lease in
      do
        node0 ← create_node key0 lease (codes "node0:0")
        _ ← create_node key1 lease (codes "node1:0")
        update_first key0 lease
        revision ← delete_first key0 key1 lease
        pure (node0.create_revision, revision)

  -- The watcher from before the compaction, which is cancelled, and the one from the compaction on,
  -- which gets events and is then cancelled by the program.
  unfoldable pub watch : List ℕ → ℕ × ℕ → M (Experiment W) (Unit {0})
  unfolding create_watcher write read gh_assert_throw
  watch prefix (first, revision) = do
    write (create_request (create_watcher prefix first))
    r ← read
    assert_in_main r.created (codes "watch_response.created()") 106
    r ← read
    assert_in_main (r.compact_revision == revision)
        (codes "watch_response.compact_revision() == revision") 110
    write (create_request (create_watcher prefix revision))
    r ← read
    assert_in_main r.created (codes "watch_response.created()") 124
    r ← read
    assert_in_main (not (is_empty r.events)) (codes "watch_response.events_size() > 0") 128
    write (cancel_request r.watch_id)
    r ← read
    assert_in_main r.canceled (codes "watch_response.canceled()") 137

  unfoldable pub revoke_session : Completion (Unit {0}) → M (Experiment W) (Unit {0})
  unfolding revoke
  revoke_session completion c =
      let (o, r) = revoke completion c.session in (record c { session = o }, r)

  -- What follows the construction of the session; `revoke()` up to its first wait.
  unfoldable pub script : List ℕ → ℕ → Completion (Unit {0}) → M (Experiment W) (Unit {0})
  unfolding change_nodes compact watch revoke_session
  script prefix lease completion = do
    revisions ← change_nodes prefix lease
    compact revisions.1
    watch prefix revisions
    revoke_session completion

-- With the session's constructor, whose stream is opened if `ok` is true, at the time `now`. The
-- session's stream is not closed here: `Session/Lease` has the rest of `revoke()`.
module _ {W : Type 0} (stubs : Stubs W) (grant : LeaseGrantRequest → Completion LeaseGrantResponse)
    (ok : Bool) (now : ℕ) (completion : Completion (Unit {0})) where
  unfoldable pub with_session : List ℕ → W → W × ℕ
  unfolding preamble unopened script
  with_session prefix w =
      let (s, r) = preamble grant ok now (unopened 5000 0) in
      let c : Experiment W = record {
        session = record { session = s; stage = open_stage };
        watch_response = unset_response;
        world = w;
      } in
      let (after, done) = script stubs prefix s.lease_id completion c in
      elim r [ throws e ↦ (w, 1) | returns _ ↦ (after.world, exit_status done) ]

  -- The arguments behind the program's name: the prefix, and maybe an address.
  unfoldable pub main : List (List ℕ) → W → W × ℕ
  unfolding with_session
  main (prefix ∷ []) w = with_session prefix w
  main (prefix ∷ address ∷ []) w = with_session prefix w
  main _ w = (w, 1)
