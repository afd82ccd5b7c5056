-- ===== src/Candidate/Campaign/Balanced.antt =====
-- `campaign()` and `proclaim()` leave the counters of a candidate in balance.
use gee_h.Prelude.{
  ℕ, ◌+◌, ◌≡◌, sym, ap, subst, Bool, true, false, List, arith, Bool-cases, inl, inr, total,
}
use gee_h.Counter.Drain.{traced-eq}
use gee_h.Effect.{
  modify, and_then, Outcome, returns, throws, Completion, async_rpc_future,
  async_create_rdwr_stream_future,
}
use gee_h.Etcd.{not_set, TxnRequest, TxnResponse}
use gee_h.Candidate.{Candidate}
use gee_h.Candidate.Query.{query_predecessor}
use gee_h.Candidate.Balance.{IsBalanced, on_ops, query_predecessor-IsBalanced}
use gee_h.Candidate.Campaign.{
  World, publish_request, method, node_and_query, create_node, create_watch_stream, campaign_impl,
  campaign, proclaim, proclaim_rest,
}
use gee_h.Candidate.Campaign.Node.{IsReady, publish_value_lem}
use gee_h.Candidate.Campaign.Frame.{create_node-Revised}

module _ {W : Type 0} (call : W → TxnRequest → W × Completion TxnResponse) where
  abbrev streaming : Bool → Candidate → Candidate
  streaming true c = record c { stream = true }
  streaming false c = c

  create_watch_stream_lem :
      (ok : Bool) (w : World W)
      → IsReady w.candidate
      → create_watch_stream call ok w
        ≡ (record w { candidate = streaming ok w.candidate }, async_create_rdwr_stream_future ok)
  unfolding create_watch_stream
  create_watch_stream_lem true w v =
      let c = record w.candidate { stream = true } in
      ap (λ o. (record w { candidate = record c { ops = o } }, returns tt))
        (traced-eq c.ops v.count v.accepting v.counted)
  create_watch_stream_lem false w v =
      let c = w.candidate in
      ap
        (λ o.
          (record w { candidate = record c { ops = o } }, async_create_rdwr_stream_future false))
        (traced-eq c.ops v.count v.accepting v.counted)

  ready :
      {i j n : ℕ} {shut : Bool} (c : Candidate)
      → c.ops.shutdown ≡ false
      → IsBalanced i j n shut c
      → IsReady c
  ready {i} c a v = record {
    count = i + total on_ops c.queue;
    accepting = a;
    counted = v.ops_exact;
  }

  queried-IsBalanced :
      {i j n : ℕ} {shut : Bool} (o : World W × Outcome (Unit {0}))
      → IsBalanced i j n shut o.0.candidate
      → IsBalanced i j n shut (and_then o (λ _. method call (modify query_predecessor))).0.candidate
  queried-IsBalanced (w, returns t) v = query_predecessor-IsBalanced w.candidate v
  queried-IsBalanced (w, throws x) v = v

  noded-IsBalanced :
      {i j n : ℕ} {shut : Bool} (w : World W)
      → w.candidate.ops.shutdown ≡ false
      → IsBalanced i j n shut w.candidate
      → IsBalanced i j n shut (create_node call w).0.candidate
  noded-IsBalanced {i} {j} {n} {shut} w a v =
      let (m, e) = create_node-Revised call w (ready w.candidate a v) in
      subst (IsBalanced i j n shut) (sym e) (record {
        ops_exact = v.ops_exact;
        reads_exact = v.reads_exact;
        cancels_exact = v.cancels_exact;
        flag_exact = v.flag_exact;
      })

  streamed-IsBalanced :
      {i j n : ℕ} {shut : Bool} (ok : Bool) (w : World W)
      → w.candidate.ops.shutdown ≡ false
      → IsBalanced i j n shut w.candidate
      → let x : World W = record w { candidate = streaming ok w.candidate } in
        IsBalanced i j n shut
          (and_then (x, async_create_rdwr_stream_future ok) (λ _. node_and_query call)).0.candidate
  unfolding node_and_query
  streamed-IsBalanced true w a v =
      let x = record w { candidate = record w.candidate { stream = true } } in
      queried-IsBalanced (create_node call x) (
        noded-IsBalanced x a (record {
          ops_exact = v.ops_exact;
          reads_exact = v.reads_exact;
          cancels_exact = v.cancels_exact;
          flag_exact = v.flag_exact;
        }))
  streamed-IsBalanced false w a v = v

  campaign_impl-IsBalanced :
      {i j n : ℕ} {shut : Bool} (ok : Bool) (w : World W)
      → w.candidate.ops.shutdown ≡ false
      → IsBalanced i j n shut w.candidate
      → IsBalanced i j n shut (campaign_impl call ok w).0.candidate
  unfolding campaign_impl
  campaign_impl-IsBalanced {i} {j} {n} {shut} ok w a v =
      subst (λ o. IsBalanced i j n shut (and_then o (λ _. node_and_query call)).0.candidate)
        (sym (create_watch_stream_lem ok w (ready w.candidate a v))) (streamed-IsBalanced ok w a v)

  -- `campaign()` leaves the counters as far ahead of the queue as they were, also when it throws.
  pub campaign-IsBalanced :
      {i j n : ℕ} {shut : Bool} (ok : Bool) (w : World W)
      → IsBalanced i j n shut w.candidate
      → IsBalanced i j n shut (campaign call ok w).0.candidate
  unfolding campaign
  campaign-IsBalanced {i} {j} {n} {shut} ok w v = elim (Bool-cases w.candidate.ops.shutdown) [
    | inl down ↦ simp down v
    | inr up ↦ elim (Bool-cases w.candidate.promise.retrieved) [
      | inl again ↦ simp (up, again) v
      | inr first ↦
          let c = w.candidate in
          let p = record c.promise { retrieved = true } in
          simp (up, first)
            (campaign_impl-IsBalanced ok (record w { candidate = record c { promise = p } }) up
              (record {
                ops_exact = v.ops_exact;
                reads_exact = v.reads_exact;
                cancels_exact = v.cancels_exact;
                flag_exact = v.flag_exact;
              }))
    ]
  ]

  proclaimed-IsBalanced :
      {i j n : ℕ} {shut : Bool} (new_value : List ℕ) (w : World W) (o : Outcome TxnResponse)
      → IsBalanced i j n shut w.candidate
      → IsBalanced i j n shut (proclaim_rest call new_value (w, o)).0.candidate
  unfolding proclaim_rest
  proclaimed-IsBalanced new_value w (returns r) v = ground arith
  proclaimed-IsBalanced new_value w (throws x) v = v

  pub proclaim-IsBalanced :
      {i j n : ℕ} {shut : Bool} (new_value : List ℕ) (w : World W)
      → IsBalanced i j n shut w.candidate
      → IsBalanced i j n shut (proclaim call new_value w).0.candidate
  unfolding proclaim
  proclaim-IsBalanced {i} {j} {n} {shut} new_value w v =
      elim (Bool-cases w.candidate.ops.shutdown) [
        | inl down ↦ simp down v
        | inr up ↦
            let req = publish_request new_value not_set w.candidate in
            let (s, completion) = call w.server req in
            simp up (
              subst (λ o. IsBalanced i j n shut (proclaim_rest call new_value o).0.candidate)
                (sym (publish_value_lem call new_value not_set w (ready w.candidate up v)))
                (proclaimed-IsBalanced new_value (record w { server = s })
                  (async_rpc_future completion) v))
      ]
