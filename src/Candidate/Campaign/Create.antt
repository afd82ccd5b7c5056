-- ===== src/Candidate/Campaign/Create.antt =====
-- `create_node()` and `proclaim()`: what the server holds when they return.
use gee_h.Prelude.{
  ℕ, ◌<◌, ◌≡◌, refl, sym, ap, ap₂, subst, ◌∙◌, true, Option, none, some, List, [], ◌∷◌, arith,
  Bool-cases, inl, inr, ◌⊎◌, bytes_eq, bytes_eq→≡,
}
use native.Mathlib.Decide.{ℕ_discrete}
use gee_h.Effect.{
  and_then, Outcome, returns, throws, Exception, Completion, async_rpc_future, publication_failed,
}
use gee_h.Etcd.{KeyValue, RequestOp, delete_range_op, not_set, TxnRequest, TxnResponse}
use gee_h.Candidate.{Candidate}
use gee_h.Candidate.Campaign.{
  World, ensure, create_node_request, publish_request, publish_value, take_over, reuse_node,
  node_created, create_node, proclaim, proclaim_rest,
}
use gee_h.Candidate.Campaign.Node.{
  revision_at, found, stamped, EtcdTxn, node, IsReady, commit_lem, publish_value_lem, stamped-eq,
  absent,
}

module _ {W : Type 0} (call : W → TxnRequest → W × Completion TxnResponse)
    (lookup : W → List ℕ → Option KeyValue) (laws : EtcdTxn lookup call) where
  -- A write that succeeds leaves the value under the candidate's revision.
  published :
      (value : List ℕ) (failure_op : RequestOp) (c : Candidate) (w : W) (r : TxnResponse)
      → 0 < c.creation_revision
      → async_rpc_future (call w (publish_request value failure_op c)).1 ≡ returns r
      → r.succeeded ≡ true
      → lookup (call w (publish_request value failure_op c)).0 c.candidate_key
        ≡ some
            (record { key = c.candidate_key; value = value; create_revision = c.creation_revision })
  unfolding publish_request
  published value failure_op c w r h e s =
      let req = publish_request value failure_op c in
      elim (ℕ_discrete (revision_at (lookup w c.candidate_key)) c.creation_revision) [
        | yes same ↦
            (laws.on_equal w req r e same).1
            ∙ ap (λ n. some (record { key = c.candidate_key; value = value; create_revision = n }))
                (stamped-eq (lookup w c.candidate_key) c.creation_revision r.revision same h)
        | no differs ↦ cc (laws.on_other w req r e differs)
      ]

  -- A key that the first transaction creates is new, so its revision is the transaction's.
  created :
      (c : Candidate) (w : W) (r : TxnResponse)
      → async_rpc_future (call w (create_node_request c)).1 ≡ returns r
      → r.succeeded ≡ true
      → lookup (call w (create_node_request c)).0 c.candidate_key
        ≡ some (record {
          key = c.candidate_key;
          value = c.candidate_value;
          create_revision = r.revision;
        })
  unfolding create_node_request
  created c w r e s =
      let req = create_node_request c in
      elim (ℕ_discrete (revision_at (lookup w c.candidate_key)) 0) [
        | yes new ↦
            (laws.on_equal w req r e new).1
            ∙ ap
                (λ (o : Option KeyValue). some (record {
                  key = c.candidate_key;
                  value = c.candidate_value;
                  create_revision = stamped o r.revision;
                }))
                (absent (lookup w c.candidate_key) (laws.entry_created w c.candidate_key) new)
        | no old ↦ cc (laws.on_other w req r e old)
      ]

  -- What holds when `create_node()` returns.
  abbrev IsStanding : World W → Type 0
  IsStanding w = lookup w.server w.candidate.candidate_key ≡ some (node w.candidate)

  ensure-IsStanding :
      (w : World W) (o : Outcome TxnResponse)
      → ((r : TxnResponse) → o ≡ returns r → r.succeeded ≡ true → IsStanding w)
      → (and_then (w, o) (ensure call)).1 ≡ returns tt
      → IsStanding (and_then (w, o) (ensure call)).0
  ensure-IsStanding w (returns r) h e = elim (Bool-cases r.succeeded) [
    | inl s ↦ rw s (h r refl s)
    | inr f ↦ absurd (ground arith)
  ]
  ensure-IsStanding w (throws x) h e = absurd (ground arith)

  publish-IsStanding :
      (failure_op : RequestOp) (w : World W)
      → IsReady w.candidate
      → 0 < w.candidate.creation_revision
      → let o = publish_value call w.candidate.candidate_value failure_op w in
        (and_then o (ensure call)).1 ≡ returns tt → IsStanding (and_then o (ensure call)).0
  publish-IsStanding failure_op w v h =
      let c = w.candidate in
      let req = publish_request c.candidate_value failure_op c in
      let (s, completion) = call w.server req in
      subst
        (λ o. (and_then o (ensure call)).1 ≡ returns tt → IsStanding (and_then o (ensure call)).0)
        (sym (publish_value_lem call c.candidate_value failure_op w v))
        (ensure-IsStanding (record w { server = s }) (async_rpc_future completion)
          (λ r. published c.candidate_value failure_op c w.server r h))

  take_over-IsStanding :
      (kv : KeyValue) (w : World W)
      → IsReady w.candidate
      → lookup w.server w.candidate.candidate_key ≡ some kv
      → (take_over call kv w).1 ≡ returns tt
      → IsStanding (take_over call kv w).0
  unfolding take_over
  take_over-IsStanding kv w v e r =
      let c = record w.candidate { creation_revision = kv.create_revision } in
      let k = w.candidate.candidate_key in
      elim (Bool-cases (bytes_eq kv.value w.candidate.candidate_value)) [
        | inl same ↦ rw same (
            e
            ∙ ap some (
                ap₂ (λ j x. record { key = j; value = x; create_revision = kv.create_revision })
                  (laws.entry_key w.server k kv e)
                  (bytes_eq→≡ kv.value w.candidate.candidate_value same)))
        | inr other ↦ rw other (
            publish-IsStanding (delete_range_op k) (record w { candidate = c })
              (record { count = v.count; accepting = v.accepting; counted = v.counted })
              (laws.entry_created w.server k kv e) (rw other at r))
      ]

  reuse_node-IsStanding :
      (o : Option KeyValue) (w : World W)
      → IsReady w.candidate
      → lookup w.server w.candidate.candidate_key ≡ o
      → (reuse_node call (found o ∷ []) w).1 ≡ returns tt
      → IsStanding (reuse_node call (found o ∷ []) w).0
  unfolding reuse_node
  reuse_node-IsStanding none w v e r = absurd (ground arith)
  reuse_node-IsStanding (some kv) w v e r = take_over-IsStanding kv w v e r

  node_created-IsStanding :
      (c : Candidate) (s : W) (r : TxnResponse)
      → IsReady c
      → async_rpc_future (call s (create_node_request c)).1 ≡ returns r
      → let w : World W = record { candidate = c; server = (call s (create_node_request c)).0 } in
        (node_created call r w).1 ≡ returns tt → IsStanding (node_created call r w).0
  unfolding node_created
  node_created-IsStanding c s r v e = elim (Bool-cases r.succeeded) [
    | inl done ↦ rw (done, node_created) (λ _. created c s r e done)
    | inr there ↦
        let (answer, same) =
          laws.on_other_range s (create_node_request c) r c.candidate_key e there
            (unfold create_node_request in refl) in
        rw (there, node_created, answer)
          (reuse_node-IsStanding (lookup s c.candidate_key) _
            (record { count = v.count; accepting = v.accepting; counted = v.counted }) same)
  ]

  -- Whatever the state of the server, when `create_node()` returns the server holds the candidate's
  -- key with the candidate's value, created at the revision that the candidate has noted: whether
  -- the key was new, was there with the same value, or was there with another value.
  pub create_node-IsStanding :
      (w : World W)
      → IsReady w.candidate
      → (create_node call w).1 ≡ returns tt
      → IsStanding (create_node call w).0
  unfolding create_node
  create_node-IsStanding w v =
      let c = w.candidate in
      let req = create_node_request c in
      let (s, completion) = call w.server req in
      simp v.accepting (
        subst
          (λ o.
            (and_then o (node_created call)).1 ≡ returns tt
            → IsStanding (and_then o (node_created call)).0)
          (sym (commit_lem call req w v))
          (answered s (async_rpc_future completion) (λ r. node_created-IsStanding c w.server r v)))
    where
      answered :
          (s : W) (o : Outcome TxnResponse)
          → ((r : TxnResponse)
              → o ≡ returns r
              → (node_created call r (record { candidate = w.candidate; server = s })).1
                ≡ returns tt
              → IsStanding (node_created call r (record { candidate = w.candidate; server = s })).0)
          → let x : World W = record { candidate = w.candidate; server = s } in
            (and_then (x, o) (node_created call)).1 ≡ returns tt
            → IsStanding (and_then (x, o) (node_created call)).0
      answered s (returns r) h e = h r refl e
      answered s (throws x) h e = absurd (ground arith)

  -- The two outcomes of `proclaim()` on a candidate `c`.
  abbrev Proclaimed : List ℕ → Candidate → World W × Outcome (Unit {0}) → Type 0
  Proclaimed new_value c p =
      ((p.1 ≡ returns tt)
        × (p.0.candidate ≡ record c { candidate_value = new_value })
        × (lookup p.0.server c.candidate_key ≡ some (record (node c) { value = new_value })))
      ⊎ ((x : Exception) × (p.1 ≡ throws x) × (p.0.candidate ≡ c))

  proclaimed :
      (new_value : List ℕ) (c : Candidate) (s : W) (o : Outcome TxnResponse)
      → ((r : TxnResponse)
          → o ≡ returns r
          → r.succeeded ≡ true
          → IsStanding
              (record { candidate = record c { candidate_value = new_value }; server = s }))
      → Proclaimed new_value c
          (proclaim_rest call new_value (record { candidate = c; server = s }, o))
  unfolding proclaim_rest
  proclaimed new_value c s (returns r) h = elim (Bool-cases r.succeeded) [
    | inl done ↦ simp done (inl (refl, refl, h r refl done))
    | inr refused ↦ simp refused (inr (publication_failed, refl, refl))
  ]
  proclaimed new_value c s (throws y) h = inr (y, refl, refl)

  -- On a candidate that was created and is not shut down `proclaim()` either returns, and then the
  -- candidate has the new value and the server holds it under the candidate's key and revision, or
  -- it throws, and then no field of the candidate has changed.
  pub proclaim-IsStanding :
      (new_value : List ℕ) (w : World W)
      → IsReady w.candidate
      → 0 < w.candidate.creation_revision
      → let p = proclaim call new_value w in
        ((p.1 ≡ returns tt)
          × (p.0.candidate ≡ record w.candidate { candidate_value = new_value })
          × (lookup p.0.server w.candidate.candidate_key
              ≡ some (record (node w.candidate) { value = new_value })))
        ⊎ ((x : Exception) × (p.1 ≡ throws x) × (p.0.candidate ≡ w.candidate))
  unfolding proclaim
  proclaim-IsStanding new_value w v h =
      let c = w.candidate in
      let req = publish_request new_value not_set c in
      let (s, completion) = call w.server req in
      simp v.accepting (
        subst (λ o. Proclaimed new_value c (proclaim_rest call new_value o))
          (sym (publish_value_lem call new_value not_set w v))
          (proclaimed new_value c s (async_rpc_future completion)
            (λ r. published new_value not_set c w.server r h)))
