-- ===== src/Experiments/Cluster.antt =====
-- experiments/cluster_failure_behavior.cpp: a client that looks for the leader of a cluster, and the
-- functions that change nodes through it.
use gee_h.Prelude.{
  codes, ℕ, Bool, ◌&&◌, List, [], ◌∷◌, ◌++◌, Option, none, some, if◌then◌else◌, ◌==◌,
}
use gee_h.Effect.{M, Outcome, ◌>>=◌, ◌>>◌, pure, throw, returns, throws, runtime_error}
use gee_h.Etcd.{KeyValue, TxnRequest, TxnResponse, not_set}
use gee_h.Errors.{ok, string}
use gee_h.Experiments.{Reply, StatusResponse, Stubs, check}

-- The members of `etcd_client`, and the cluster.
pub record ClusterClient (W : Type 0) : Type 0 where
  pub targets : List (List ℕ)
  pub current_channel : Option (List ℕ)
  pub world : W

unfoldable pub new : {W : Type 0} → List (List ℕ) → W → ClusterClient W
new targets w = record { targets = targets; current_channel = none; world = w }

-- The tests of the loop: the call succeeded, and the member is the leader.
abbrev pub leads : Reply StatusResponse → Bool
leads r = ok r.status && r.response.leader == r.response.member_id

-- The transaction of `create_node()`, which both programs make.
unfoldable pub create_request : List ℕ → List ℕ → ℕ → TxnRequest
create_request key value lease_id = record {
  compare_key = key;
  compare_create_revision = 0;
  put_key = key;
  put_value = value;
  put_lease = lease_id;
  failure = not_set;
}

-- What it makes of the answer.
unfoldable pub created : {S : Type 0} → List ℕ → List ℕ → TxnResponse → M S KeyValue
created key value resp =
    if resp.succeeded
    then pure (record { key = key; value = value; create_revision = resp.revision })
    else throw (runtime_error (codes "Cannot create node " ++ key))

module _ {W : Type 0} (stubs : Stubs W) where
  -- The loop over the targets: it stops at the first one that leads.
  unfoldable pub find_leader : List (List ℕ) → W → W × Option (List ℕ)
  find_leader [] w = (w, none)
  find_leader (t ∷ ts) w =
      let (asked, r) = stubs.maintenance_status t w in
      let rest = find_leader ts asked in if leads r then (asked, some t) else rest

  abbrev pub ready_among : Option (List ℕ) → W → Option (List ℕ)
  ready_among none w = none
  ready_among (some t) w = if stubs.is_ready t w then some t else none

  -- The current channel, if it is set and ready.
  abbrev pub ready_channel : ClusterClient W → Option (List ℕ)
  ready_channel c = ready_among c.current_channel c.world

  abbrev pub adopt : ClusterClient W → W × Option (List ℕ) → ClusterClient W × Outcome (List ℕ)
  adopt c (w, none) = (
    record c { world = w },
    throws (runtime_error (codes "Cannot find any working cluster member")),
  )
  adopt c (w, some t) = (record c { current_channel = some t; world = w }, returns t)

  abbrev pub pick_from : ClusterClient W → Option (List ℕ) → ClusterClient W × Outcome (List ℕ)
  pick_from c (some t) = (c, returns t)
  pick_from c none = adopt c (find_leader c.targets c.world)

  unfoldable pub pick_channel : M (ClusterClient W) (List ℕ)
  unfolding find_leader
  pick_channel c = pick_from c (ready_channel c)

  abbrev pub call : {R : Type 0} → (W → W × R) → M (ClusterClient W) R
  call f c = let (w, r) = f c.world in (record c { world = w }, returns r)

  unfoldable pub create_lease : M (ClusterClient W) ℕ
  unfolding pick_channel
  create_lease = do
    channel ← pick_channel
    r ← call (stubs.lease_grant channel (record { id = 0; ttl = 30 }))
    check r.status (codes "create_lease()") []
    pure r.response.id

  -- The transaction of `create_node()`, once there are a channel and a lease.
  unfoldable pub create_with_lease : List ℕ → List ℕ → List ℕ → ℕ → M (ClusterClient W) KeyValue
  unfolding create_request created
  create_with_lease channel key value lease_id = do
    r ← call (stubs.txn channel (create_request key value lease_id))
    check r.status (codes "create_node()") (string key ∷ [])
    created key value r.response

  -- The channel is picked before the lease is made.
  unfoldable pub create_node : List ℕ → List ℕ → M (ClusterClient W) KeyValue
  unfolding pick_channel create_lease create_with_lease
  create_node key value = do
    channel ← pick_channel
    lease_id ← create_lease
    create_with_lease channel key value lease_id

  unfoldable pub update_node : List ℕ → List ℕ → M (ClusterClient W) (Unit {0})
  unfolding pick_channel
  update_node key value = do
    channel ← pick_channel
    r ← call (stubs.put channel (record { key = key; value = value; lease = 0 }))
    check r.status (codes "update_node()") (string key ∷ string value ∷ [])

  unfoldable pub delete_node : List ℕ → M (ClusterClient W) ℕ
  unfolding pick_channel
  delete_node key = do
    channel ← pick_channel
    r ← call (stubs.delete_range channel key)
    check r.status (codes "delete_node()") (string key ∷ [])
    pure r.response
