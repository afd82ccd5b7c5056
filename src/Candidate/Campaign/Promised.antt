-- ===== src/Candidate/Campaign/Promised.antt =====
-- What the blocking calls do to the promise: `campaign()` marks it as retrieved, and a shut down
-- query may settle it.
use gee_h.Prelude.{ℕ, ◌≡◌, refl, Bool, true, false, some, List, arith, Bool-cases, inl, inr}
use gee_h.Effect.{and_then, modify, Outcome, returns, throws, Completion}
use gee_h.Etcd.{RequestOp, not_set, TxnRequest, TxnResponse}
use gee_h.Candidate.{election_result}
use gee_h.Candidate.Query.{query_predecessor}
use gee_h.Candidate.Campaign.Kept.{publish-kept, create_node-kept}
use gee_h.Candidate.Campaign.{
  World, method, publish_value, create_node, create_watch_stream, node_and_query, campaign_impl,
  campaign, proclaim, proclaim_rest,
}

module _ {W : Type 0} (call : W → TxnRequest → W × Completion TxnResponse) where
  publish-promise :
      (value : List ℕ) (failure_op : RequestOp) (w : World W)
      → (publish_value call value failure_op w).0.candidate.promise ≡ w.candidate.promise
  publish-promise = publish-kept call (λ c. c.promise) (λ c ops. refl) (λ c n. refl)

  create_node-promise :
      (w : World W) → (create_node call w).0.candidate.promise ≡ w.candidate.promise
  create_node-promise = create_node-kept call (λ c. c.promise) (λ c ops. refl) (λ c n. refl)

  module _ (b : Bool) where
    queried-promise :
        (o : World W × Outcome (Unit {0}))
        → o.0.candidate.promise.value ≡ some b
        → (and_then o (λ _. method call (modify query_predecessor))).0.candidate.promise.value
          ≡ some b
    unfolding query_predecessor election_result
    queried-promise (w, returns t) h = ground arith
    queried-promise (w, throws x) h = h

    streamed-promise :
        (o : World W × Outcome (Unit {0}))
        → o.0.candidate.promise.value ≡ some b
        → (and_then o (λ _. node_and_query call)).0.candidate.promise.value ≡ some b
    unfolding node_and_query
    streamed-promise (w, returns t) h =
        queried-promise (create_node call w) (ground (arith, create_node-promise w))
    streamed-promise (w, throws x) h = h

    stream-promise :
        (ok : Bool) (w : World W)
        → (create_watch_stream call ok w).0.candidate.promise ≡ w.candidate.promise
    unfolding create_watch_stream
    stream-promise true w = refl
    stream-promise false w = refl

    pub campaign-promise :
        (ok : Bool) (w : World W)
        → w.candidate.promise.value ≡ some b
        → (campaign call ok w).0.candidate.promise.value ≡ some b
    unfolding campaign campaign_impl
    campaign-promise ok w h =
        let c = w.candidate in
        let p = record c.promise { retrieved = true } in
        let v = record w { candidate = record c { promise = p } } in
        elim (Bool-cases c.ops.shutdown) [
          | inl down ↦ simp down h
          | inr up ↦ elim (Bool-cases c.promise.retrieved) [
            | inl again ↦ simp (up, again) h
            | inr first ↦
                simp (up, first)
                  (streamed-promise (create_watch_stream call ok v)
                    (ground (arith, stream-promise ok v)))
          ]
        ]

    proclaimed-promise :
        (new_value : List ℕ) (o : World W × Outcome TxnResponse)
        → o.0.candidate.promise.value ≡ some b
        → (proclaim_rest call new_value o).0.candidate.promise.value ≡ some b
    unfolding proclaim_rest
    proclaimed-promise new_value (w, returns r) h = ground arith
    proclaimed-promise new_value (w, throws x) h = h

    pub proclaim-promise :
        (new_value : List ℕ) (w : World W)
        → w.candidate.promise.value ≡ some b
        → (proclaim call new_value w).0.candidate.promise.value ≡ some b
    unfolding proclaim
    proclaim-promise new_value w h = elim (Bool-cases w.candidate.ops.shutdown) [
      | inl down ↦ simp down h
      | inr up ↦ simp up (
          proclaimed-promise new_value (publish_value call new_value not_set w)
            (ground (arith, publish-promise new_value not_set w)))
    ]
