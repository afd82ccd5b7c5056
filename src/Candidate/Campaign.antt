-- ===== src/Candidate/Campaign.antt =====
-- The blocking calls of the candidate: `campaign()` up to the query for the predecessor, and
-- `proclaim()`. The server is a parameter: from its state and a transaction it gives its next
-- state and the completion of the call. A call blocks until its completion and is one step here.
pub mod Node
pub mod Create
pub mod Frame
pub mod Balanced
pub mod Kept
pub mod Promised
pub mod Named
use gee_h.Prelude.{ℕ, Bool, true, List, [], ◌∷◌, if◌then◌else◌, bytes_eq}
use gee_h.Counter.{in_shutdown, open_tracer, close_tracer}
use gee_h.Effect.{
  M, Outcome, and_then, ◌>>=◌, ◌>>◌, throw, modify, get, returns, throws, called_after_shutdown,
  assertion_failed, publication_failed, future_already_retrieved, Completion, async_rpc_future,
  async_create_rdwr_stream_future,
}
use gee_h.Etcd.{KeyValue, RequestOp, not_set, range_op, delete_range_op, TxnRequest, TxnResponse}
use gee_h.Candidate.{Candidate}
use gee_h.Candidate.Query.{query_predecessor}

-- The candidate and the server.
pub record World (W : Type 0) : Type 0 where
  pub candidate : Candidate
  pub server : W

-- The request of `create_node`: create the key if it does not exist, else read it.
unfoldable pub create_node_request : Candidate → TxnRequest
create_node_request c = record {
  compare_key = c.candidate_key;
  compare_create_revision = 0;
  put_key = c.candidate_key;
  put_value = c.candidate_value;
  put_lease = c.lease_id;
  failure = range_op c.candidate_key;
}

-- The request of `publish_value`: write the value if the key is still the candidate's.
unfoldable pub publish_request : List ℕ → RequestOp → Candidate → TxnRequest
publish_request value failure_op c = record {
  compare_key = c.candidate_key;
  compare_create_revision = c.creation_revision;
  put_key = c.candidate_key;
  put_value = value;
  put_lease = c.lease_id;
  failure = failure_op;
}

module _ {W : Type 0} (call : W → TxnRequest → W × Completion TxnResponse) where
  abbrev pub method : {A : Type 0} → M Candidate A → M (World W) A
  method m w = let (c, r) = m w.candidate in (record w { candidate = c }, r)

  -- An `async_op_tracer` on `ops_` around a part of a method.
  abbrev pub with_tracer : {A : Type 0} → M (World W) A → M (World W) A
  with_tracer m w =
      let c = w.candidate in
      let (ops, status) = open_tracer c.ops in
      let (v, r) = m (record w { candidate = record c { ops = ops } }) in
      let d = v.candidate in
      (record v { candidate = record d { ops = close_tracer d.ops status } }, r)

  unfoldable pub transact : TxnRequest → M (World W) TxnResponse
  transact req w =
      let (v, completion) = call w.server req in
      (record w { server = v }, async_rpc_future completion)

  unfoldable pub commit : TxnRequest → M (World W) TxnResponse
  unfolding transact open_tracer close_tracer
  commit req = with_tracer (transact req)

  unfoldable pub publish_value : List ℕ → RequestOp → M (World W) TxnResponse
  publish_value value failure_op w = commit (publish_request value failure_op w.candidate) w

  abbrev pub ensure : TxnResponse → M (World W) (Unit {0})
  ensure r w = if r.succeeded then (w, returns tt) else (w, throws publication_failed)

  -- The key was there: take over its creation revision, and write the value if it differs.
  unfoldable pub take_over : KeyValue → M (World W) (Unit {0})
  take_over kv w =
      let c = record w.candidate { creation_revision = kv.create_revision } in
      let v = record w { candidate = c } in
      if bytes_eq kv.value c.candidate_value
      then (v, returns tt)
      else (publish_value c.candidate_value (delete_range_op c.candidate_key) >>= ensure) v

  unfoldable pub reuse_node : List (List KeyValue) → M (World W) (Unit {0})
  reuse_node ((kv ∷ []) ∷ []) = take_over kv
  reuse_node _ = throw assertion_failed

  -- What `create_node` does with the answer to its transaction.
  unfoldable pub node_created : TxnResponse → M (World W) (Unit {0})
  node_created r w =
      let v = record w { candidate = record w.candidate { creation_revision = r.revision } } in
      if r.succeeded then (v, returns tt) else reuse_node r.responses v

  unfoldable pub create_node : M (World W) (Unit {0})
  unfolding in_shutdown
  create_node w =
      if in_shutdown w.candidate.ops
      then (w, throws called_after_shutdown)
      else (commit (create_node_request w.candidate) >>= node_created) w

  unfoldable pub create_watch_stream : Bool → M (World W) (Unit {0})
  unfolding open_tracer close_tracer
  create_watch_stream ok =
      with_tracer
        do get (async_create_rdwr_stream_future ok); method (modify λ c. record c { stream = true })

  -- The last two calls of `campaign_impl`.
  unfoldable pub node_and_query : M (World W) (Unit {0})
  node_and_query = do create_node; method (modify query_predecessor)

  unfoldable pub campaign_impl : Bool → M (World W) (Unit {0})
  campaign_impl ok = do create_watch_stream ok; node_and_query

  -- `get_future()` throws when it is called again; the future itself is the promise's value.
  unfoldable pub campaign : Bool → M (World W) (Unit {0})
  unfolding in_shutdown
  campaign ok w =
      let c = w.candidate in
      let p = c.promise in
      if in_shutdown c.ops
      then (w, throws called_after_shutdown)
      else if p.retrieved
      then (w, throws future_already_retrieved)
      else campaign_impl ok
          (record w { candidate = record c { promise = record p { retrieved = true } } })

  -- What `proclaim` does with the answer of `publish_value`.
  unfoldable pub proclaim_rest :
      List ℕ → World W × Outcome TxnResponse → World W × Outcome (Unit {0})
  proclaim_rest new_value o =
      and_then (and_then o ensure)
        λ _. method (modify λ c. record c { candidate_value = new_value })

  unfoldable pub proclaim : List ℕ → M (World W) (Unit {0})
  unfolding in_shutdown
  proclaim new_value w =
      if in_shutdown w.candidate.ops
      then (w, throws called_after_shutdown)
      else proclaim_rest new_value (publish_value new_value not_set w)
