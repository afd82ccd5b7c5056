-- ===== src/Candidate/Campaign/Node.antt =====
-- The blocking calls against what etcd documents of transactions.
use gee_h.Prelude.{
  ℕ, ◌<◌, ◌≡◌, refl, ap, ◌≢◌, pos, true, false, Option, none, some, List, [], ◌∷◌, arith,
}
use gee_h.Counter.Drain.{traced-eq}
use gee_h.Effect.{returns, Completion, async_rpc_future}
use gee_h.Etcd.{KeyValue, RequestOp, range_op, TxnRequest, TxnResponse}
use gee_h.Candidate.{Candidate}
use gee_h.Candidate.Campaign.{World, publish_request, transact, commit, publish_value}

abbrev pub revision_at : Option KeyValue → ℕ
revision_at none = 0
revision_at (some kv) = kv.create_revision

abbrev pub found : Option KeyValue → List KeyValue
found none = []
found (some kv) = kv ∷ []

-- A put keeps the creation revision of a key that exists.
abbrev pub stamped : Option KeyValue → ℕ → ℕ
stamped none revision = revision
stamped (some kv) revision = kv.create_revision

-- What etcd documents: the keys of a state with their entries, and what a transaction that is
-- answered does. Other clients may change the state between two calls, not within one.
pub record EtcdTxn {W : Type 0} (lookup : W → List ℕ → Option KeyValue)
    (call : W → TxnRequest → W × Completion TxnResponse) : Type 0 where
  pub entry_key : (w : W) (k : List ℕ) (kv : KeyValue) → lookup w k ≡ some kv → kv.key ≡ k
  pub entry_created :
      (w : W) (k : List ℕ) (kv : KeyValue) → lookup w k ≡ some kv → 0 < kv.create_revision
  pub on_equal :
      (w : W) (req : TxnRequest) (r : TxnResponse)
      → async_rpc_future (call w req).1 ≡ returns r
      → revision_at (lookup w req.compare_key) ≡ req.compare_create_revision
      → (r.succeeded ≡ true)
        × (lookup (call w req).0 req.put_key
            ≡ some (record {
              key = req.put_key;
              value = req.put_value;
              create_revision = stamped (lookup w req.put_key) r.revision;
            }))
  pub on_other :
      (w : W) (req : TxnRequest) (r : TxnResponse)
      → async_rpc_future (call w req).1 ≡ returns r
      → revision_at (lookup w req.compare_key) ≢ req.compare_create_revision
      → r.succeeded ≡ false
  pub on_other_range :
      (w : W) (req : TxnRequest) (r : TxnResponse) (k : List ℕ)
      → async_rpc_future (call w req).1 ≡ returns r
      → r.succeeded ≡ false
      → req.failure ≡ range_op k
      → (r.responses ≡ found (lookup w k) ∷ []) × (lookup (call w req).0 k ≡ lookup w k)

-- The entry that a candidate stands for.
abbrev pub node : Candidate → KeyValue
node c = record {
  key = c.candidate_key;
  value = c.candidate_value;
  create_revision = c.creation_revision;
}

-- No wait for the candidate's operations has begun, and their count is not negative.
pub record IsReady (c : Candidate) : Type 0 where
  pub count : ℕ
  pub accepting : c.ops.shutdown ≡ false
  pub counted : c.ops.pending ≡ pos count

module _ {W : Type 0} (call : W → TxnRequest → W × Completion TxnResponse) where
  pub commit_lem :
      (req : TxnRequest) (w : World W)
      → IsReady w.candidate
      → commit call req w
        ≡ (record w { server = (call w.server req).0 }, async_rpc_future (call w.server req).1)
  unfolding commit transact
  commit_lem req w v =
      let c = w.candidate in
      let (s, completion) = call w.server req in
      ap
        (λ o.
          (record w { candidate = record c { ops = o }; server = s }, async_rpc_future completion))
        (traced-eq c.ops v.count v.accepting v.counted)

  -- Blocking in a tracer leaves the candidate as it was.
  pub publish_value_lem :
      (value : List ℕ) (failure_op : RequestOp) (w : World W)
      → IsReady w.candidate
      → publish_value call value failure_op w ≡ (
        record w { server = (call w.server (publish_request value failure_op w.candidate)).0 },
        async_rpc_future (call w.server (publish_request value failure_op w.candidate)).1,
      )
  unfolding publish_value
  publish_value_lem value failure_op w v =
      commit_lem (publish_request value failure_op w.candidate) w v

pub stamped-eq :
    (o : Option KeyValue) (n revision : ℕ) → revision_at o ≡ n → 0 < n → stamped o revision ≡ n
stamped-eq none n revision e h = absurd (omega arith)
stamped-eq (some kv) n revision e h = e

pub absent :
    (o : Option KeyValue)
    → ((kv : KeyValue) → o ≡ some kv → 0 < kv.create_revision)
    → revision_at o ≡ 0
    → o ≡ none
absent none h e = refl
absent (some kv) h e = absurd (omega (arith, h kv refl))
