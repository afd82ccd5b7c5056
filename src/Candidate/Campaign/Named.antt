-- ===== src/Candidate/Campaign/Named.antt =====
-- What `campaign()` and `proclaim()` never change: the candidate's names.
use gee_h.Prelude.{ℕ, ◌≡◌, refl, ◌∙◌, Bool, true, false, List, Bool-cases, inl, inr, arith}
use gee_h.Effect.{and_then, modify, Outcome, returns, throws, Completion}
use gee_h.Etcd.{not_set, TxnRequest, TxnResponse}
use gee_h.Candidate.{Candidate, election_result}
use gee_h.Candidate.Query.{query_predecessor}
use gee_h.Candidate.Campaign.{
  World, method, publish_value, create_node, create_watch_stream, node_and_query, campaign_impl,
  campaign, proclaim, proclaim_rest,
}
use gee_h.Candidate.Campaign.Kept.{publish-kept, create_node-kept}

-- The lease, the key and the prefix.
abbrev pub names_of : Candidate → ℕ × List ℕ × List ℕ
names_of c = (c.lease_id, c.candidate_key, c.election_prefix)

pub query_predecessor-names : (c : Candidate) → names_of (query_predecessor c) ≡ names_of c
unfolding query_predecessor election_result
query_predecessor-names c = ground arith

module _ {W : Type 0} (call : W → TxnRequest → W × Completion TxnResponse) where
  queried-names :
      (o : World W × Outcome (Unit {0}))
      → names_of (and_then o (λ _. method call (modify query_predecessor))).0.candidate
        ≡ names_of o.0.candidate
  queried-names (w, returns t) = query_predecessor-names w.candidate
  queried-names (w, throws x) = refl

  streamed-names :
      (o : World W × Outcome (Unit {0}))
      → names_of (and_then o (λ _. node_and_query call)).0.candidate ≡ names_of o.0.candidate
  unfolding node_and_query
  streamed-names (w, returns t) =
      queried-names (create_node call w)
      ∙ create_node-kept call names_of (λ c ops. refl) (λ c n. refl) w
  streamed-names (w, throws x) = refl

  stream-names :
      (ok : Bool) (w : World W)
      → names_of (create_watch_stream call ok w).0.candidate ≡ names_of w.candidate
  unfolding create_watch_stream
  stream-names true w = refl
  stream-names false w = refl

  pub campaign-names :
      (ok : Bool) (w : World W) → names_of (campaign call ok w).0.candidate ≡ names_of w.candidate
  unfolding campaign campaign_impl
  campaign-names ok w =
      let c = w.candidate in
      let p = record c.promise { retrieved = true } in
      let v = record w { candidate = record c { promise = p } } in
      elim (Bool-cases c.ops.shutdown) [
        | inl down ↦ simp down refl
        | inr up ↦ elim (Bool-cases c.promise.retrieved) [
          | inl again ↦ simp (up, again) refl
          | inr first ↦
              simp (up, first) (streamed-names (create_watch_stream call ok v) ∙ stream-names ok v)
        ]
      ]

  proclaimed-names :
      (new_value : List ℕ) (o : World W × Outcome TxnResponse)
      → names_of (proclaim_rest call new_value o).0.candidate ≡ names_of o.0.candidate
  unfolding proclaim_rest
  proclaimed-names new_value (w, returns r) = ground arith
  proclaimed-names new_value (w, throws x) = refl

  pub proclaim-names :
      (new_value : List ℕ) (w : World W)
      → names_of (proclaim call new_value w).0.candidate ≡ names_of w.candidate
  unfolding proclaim
  proclaim-names new_value w = elim (Bool-cases w.candidate.ops.shutdown) [
    | inl down ↦ simp down refl
    | inr up ↦ simp up (
        proclaimed-names new_value (publish_value call new_value not_set w)
        ∙ publish-kept call names_of (λ c ops. refl) (λ c n. refl) new_value not_set w)
  ]
