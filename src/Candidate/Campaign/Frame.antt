-- ===== src/Candidate/Campaign/Frame.antt =====
-- What `create_node()` leaves alone: its blocking calls change the revision of the candidate at most.
use gee_h.Prelude.{
  ℕ, ◌≡◌, refl, sym, ap, subst, ◌∙◌, List, [], ◌∷◌, arith, Bool-cases, inl, inr, bytes_eq,
}
use gee_h.Effect.{and_then, Outcome, returns, throws, Completion, async_rpc_future}
use gee_h.Etcd.{KeyValue, RequestOp, delete_range_op, TxnRequest, TxnResponse}
use gee_h.Candidate.{Candidate}
use gee_h.Candidate.Campaign.{
  World, ensure, create_node_request, publish_value, take_over, reuse_node, node_created,
  create_node,
}
use gee_h.Candidate.Campaign.Node.{IsReady, commit_lem, publish_value_lem}

module _ {W : Type 0} (call : W → TxnRequest → W × Completion TxnResponse) where
  -- The outcome of a method differs from the candidate in the revision at most.
  abbrev pub Revised : Candidate → World W × Outcome (Unit {0}) → Type 0
  Revised c o = (n : ℕ) × (o.0.candidate ≡ record c { creation_revision = n })

  ensure-candidate :
      (w : World W) (o : Outcome TxnResponse)
      → (and_then (w, o) (ensure call)).0.candidate ≡ w.candidate
  ensure-candidate w (returns r) = ground arith
  ensure-candidate w (throws x) = refl

  publish-candidate :
      (value : List ℕ) (failure_op : RequestOp) (w : World W)
      → IsReady w.candidate
      → (and_then (publish_value call value failure_op w) (ensure call)).0.candidate ≡ w.candidate
  publish-candidate value failure_op w v =
      ap (λ o. (and_then o (ensure call)).0.candidate) (publish_value_lem call value failure_op w v)
      ∙ ensure-candidate _ _

  take_over-Revised :
      (kv : KeyValue) (w : World W)
      → IsReady w.candidate
      → Revised w.candidate (take_over call kv w)
  unfolding take_over
  take_over-Revised kv w v =
      let c = record w.candidate { creation_revision = kv.create_revision } in
      elim (Bool-cases (bytes_eq kv.value w.candidate.candidate_value)) [
        | inl same ↦ (kv.create_revision, simp same)
        | inr other ↦ (
          kv.create_revision,
          simp other (
              publish-candidate w.candidate.candidate_value
                (delete_range_op w.candidate.candidate_key) (record w { candidate = c })
                (record { count = v.count; accepting = v.accepting; counted = v.counted })),
        )
      ]

  reuse_node-Revised :
      (rs : List (List KeyValue)) (w : World W)
      → IsReady w.candidate
      → Revised w.candidate (reuse_node call rs w)
  unfolding reuse_node
  reuse_node-Revised ((kv ∷ []) ∷ []) w v = take_over-Revised kv w v
  reuse_node-Revised _ w v = (w.candidate.creation_revision, refl)

  node_created-Revised :
      (r : TxnResponse) (w : World W)
      → IsReady w.candidate
      → Revised w.candidate (node_created call r w)
  unfolding node_created
  node_created-Revised r w v = elim (Bool-cases r.succeeded) [
    | inl done ↦ (r.revision, simp done)
    | inr there ↦
        let c = record w.candidate { creation_revision = r.revision } in
        let (n, e) =
          reuse_node-Revised r.responses (record w { candidate = c })
            (record { count = v.count; accepting = v.accepting; counted = v.counted }) in
        (n, simp there e)
  ]

  created-Revised :
      (w : World W) (o : Outcome TxnResponse)
      → IsReady w.candidate
      → Revised w.candidate (and_then (w, o) (node_created call))
  created-Revised w (returns r) v = node_created-Revised r w v
  created-Revised w (throws x) v = (w.candidate.creation_revision, refl)

  pub create_node-Revised :
      (w : World W) → IsReady w.candidate → Revised w.candidate (create_node call w)
  unfolding create_node
  create_node-Revised w v =
      let req = create_node_request w.candidate in
      let (s, completion) = call w.server req in
      simp v.accepting (
        subst (λ o. Revised w.candidate (and_then o (node_created call)))
          (sym (commit_lem call req w v))
          (created-Revised (record w { server = s }) (async_rpc_future completion) v))
