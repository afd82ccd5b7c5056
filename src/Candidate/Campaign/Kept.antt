-- ===== src/Candidate/Campaign/Kept.antt =====
-- What the blocking calls with the server keep: whatever depends neither on the counter nor on the
-- creation revision.
use gee_h.Prelude.{ℕ, ◌≡◌, refl, ◌∙◌, List, [], ◌∷◌, Bool-cases, inl, inr, bytes_eq}
use gee_h.Counter.{Counter}
use gee_h.Effect.{and_then, Outcome, returns, throws, Completion}
use gee_h.Etcd.{KeyValue, RequestOp, delete_range_op, TxnRequest, TxnResponse}
use gee_h.Candidate.{Candidate}
use gee_h.Candidate.Campaign.{
  World, ensure, create_node_request, transact, commit, publish_value, take_over, reuse_node,
  node_created, create_node,
}

module _ {W A : Type 0} (call : W → TxnRequest → W × Completion TxnResponse) (f : Candidate → A)
    (counted : (c : Candidate) (ops : Counter) → f (record c { ops = ops }) ≡ f c)
    (revised : (c : Candidate) (n : ℕ) → f (record c { creation_revision = n }) ≡ f c) where
  commit-kept : (req : TxnRequest) (w : World W) → f (commit call req w).0.candidate ≡ f w.candidate
  unfolding commit transact
  commit-kept req w = counted w.candidate _

  pub publish-kept :
      (value : List ℕ) (failure_op : RequestOp) (w : World W)
      → f (publish_value call value failure_op w).0.candidate ≡ f w.candidate
  unfolding publish_value
  publish-kept value failure_op w = commit-kept _ w

  ensured-kept :
      (o : World W × Outcome TxnResponse)
      → f (and_then o (ensure call)).0.candidate ≡ f o.0.candidate
  ensured-kept (w, returns r) = elim (Bool-cases r.succeeded) [
    | inl done ↦ simp done refl
    | inr failed ↦ simp failed refl
  ]
  ensured-kept (w, throws x) = refl

  take_over-kept :
      (kv : KeyValue) (w : World W) → f (take_over call kv w).0.candidate ≡ f w.candidate
  unfolding take_over
  take_over-kept kv w =
      let c = record w.candidate { creation_revision = kv.create_revision } in
      let v = record w { candidate = c } in
      let o = publish_value call c.candidate_value (delete_range_op c.candidate_key) v in
      let noted = revised w.candidate kv.create_revision in
      elim (Bool-cases (bytes_eq kv.value w.candidate.candidate_value)) [
        | inl same ↦ simp same noted
        | inr other ↦ simp other (ensured-kept o ∙ publish-kept _ _ v ∙ noted)
      ]

  reuse_node-kept :
      (rs : List (List KeyValue)) (w : World W)
      → f (reuse_node call rs w).0.candidate ≡ f w.candidate
  unfolding reuse_node
  reuse_node-kept ((kv ∷ []) ∷ []) w = take_over-kept kv w
  reuse_node-kept _ w = refl

  created-kept :
      (o : World W × Outcome TxnResponse)
      → f (and_then o (node_created call)).0.candidate ≡ f o.0.candidate
  unfolding node_created
  created-kept (w, returns r) =
      let c = record w.candidate { creation_revision = r.revision } in
      let noted = revised w.candidate r.revision in
      elim (Bool-cases r.succeeded) [
        | inl done ↦ simp done noted
        | inr there ↦ simp there (reuse_node-kept r.responses (record w { candidate = c }) ∙ noted)
      ]
  created-kept (w, throws x) = refl

  pub create_node-kept : (w : World W) → f (create_node call w).0.candidate ≡ f w.candidate
  unfolding create_node
  create_node-kept w =
      let o = commit call (create_node_request w.candidate) w in
      elim (Bool-cases w.candidate.ops.shutdown) [
        | inl down ↦ simp down refl
        | inr up ↦ simp up (created-kept o ∙ commit-kept _ w)
      ]
