-- ===== src/Experiments.antt =====
-- The programs under experiments: what they share. Their calls of etcd block; the stubs are a
-- parameter, with a cluster of any state.
pub mod Cluster
pub mod Failure
pub mod Channels
pub mod Healthy
pub mod Compaction
pub mod Leases
mod CompactionTests
mod Tests
use gee_h.Prelude.{ℕ, Bool, true, List, []}
use gee_h.Effect.{Outcome, M, get}
use gee_h.Etcd.{LeaseGrantRequest, LeaseGrantResponse, TxnRequest, TxnResponse}
use gee_h.Errors.{Status, Annotation, check_grpc_status}

-- What a blocking call gives.
pub record Reply (R : Type 0) : Type 0 where
  pub status : Status
  pub response : R

-- `leader()` and `header().member_id()`
pub record StatusResponse : Type 0 where
  pub leader : ℕ
  pub member_id : ℕ

-- A put without a lease has the lease 0.
pub record PutRequest : Type 0 where
  pub key : List ℕ
  pub value : List ℕ
  pub lease : ℕ

-- The calls through a channel, which is known by its target. A delete answers with the revision.
pub record Stubs (W : Type 0) : Type 0 where
  pub is_ready : List ℕ → W → Bool
  pub maintenance_status : List ℕ → W → W × Reply StatusResponse
  pub lease_grant : List ℕ → LeaseGrantRequest → W → W × Reply LeaseGrantResponse
  pub txn : List ℕ → TxnRequest → W → W × Reply TxnResponse
  pub put : List ℕ → PutRequest → W → W × Reply (Unit {0})
  pub delete_range : List ℕ → List ℕ → W → W × Reply ℕ

-- None of the annotations of the programs is a protobuf.
abbrev nothing_printed : Unit {0} → Bool × List ℕ
nothing_printed _ = (true, [])

-- `check_grpc_status`, in a program whose state is of type `S`.
abbrev pub check : {S : Type 0} → Status → List ℕ → List (Annotation (Unit {0})) → M S (Unit {0})
check status place a = get (check_grpc_status nothing_printed status place a)
