-- ===== src/Session/Lease.antt =====
-- The blocking parts of a session: the constructor, and `revoke()` and the destructor cut at their
-- waits. The server is a parameter that gives the completion of each request.
use gee_h.Prelude.{ℕ, ◌*◌, ◌/◌, Bool, true, none, if◌then◌else◌}
use gee_h.Counter.{in_shutdown, begin_wait, open_tracer, close_tracer}
use gee_h.Effect.{
  M, Outcome, ◌>>=◌, ◌>>◌, modify, get, returns, throws, lease_rejected, Completion,
  async_rpc_future, async_create_rdwr_stream_future, async_writes_done_future, async_finish_future,
  check_grpc_status,
}
use gee_h.Etcd.{LeaseGrantRequest, LeaseGrantResponse}
use gee_h.Candidate.Query.{is_empty}
use gee_h.Session.{Session, set_timer}

-- An `async_op_tracer` on `ops_` around a part of a method.
abbrev pub with_trace : {A : Type 0} → M Session A → M Session A
with_trace m s =
    let (ops, status) = open_tracer s.ops in
    let (t, r) = m (record s { ops = ops }) in (record t { ops = close_tracer t.ops status }, r)

-- The desired time to live, in full seconds.
unfoldable pub grant_request : Session → LeaseGrantRequest
grant_request s = record { id = s.lease_id; ttl = s.desired_ttl / 1000 }

-- What `preamble` does with the response.
unfoldable pub granted : ℕ → LeaseGrantResponse → M Session (Unit {0})
unfolding set_timer
granted now resp s =
    if is_empty resp.error
    then (set_timer now (record s { lease_id = resp.id; actual_ttl = resp.ttl * 1000 }), returns tt)
    else (s, throws lease_rejected)

module _ (grant : LeaseGrantRequest → Completion LeaseGrantResponse) where
  -- The body of `preamble`: open the stream, then ask for the lease.
  unfoldable pub open_session : Bool → ℕ → M Session (Unit {0})
  unfolding open_tracer close_tracer granted grant_request
  open_session ok now = with_trace do
    get (async_create_rdwr_stream_future ok)
    modify λ s. record s { ka_stream = true }
    with_trace ((λ s. (s, async_rpc_future (grant (grant_request s)))) >>= granted now)

-- `shutdown()` up to its first wait.
unfoldable pub shutdown_reads : Session → Session
unfolding begin_wait
shutdown_reads s = record s { current_timer = none; reads = begin_wait s.reads }

-- From there to its second wait.
unfoldable pub shutdown_ops : Session → Session
unfolding begin_wait
shutdown_ops s = record s { ops = begin_wait s.ops }

module _ (grant : LeaseGrantRequest → Completion LeaseGrantResponse) where
  -- The constructor runs `preamble`. Its handler calls `shutdown()` and throws again.
  unfoldable pub preamble : Bool → ℕ → M Session (Unit {0})
  unfolding open_session shutdown_reads shutdown_ops in_shutdown
  preamble ok now s =
      let (t, r) = open_session grant ok now s in
      elim r [
        | returns u ↦ (t, returns u)
        | throws e ↦ ((if in_shutdown t.ops then t else shutdown_ops (shutdown_reads t)), throws e)
      ]

-- Where the thread stands that calls `revoke()` or the destructor.
pub data Stage : Type 0 where
  open_stage revoking_reads revoking_ops : Stage
  ending_reads ending_ops ended_stage : Stage

pub record Owner : Type 0 where
  pub session : Session
  pub stage : Stage

-- `revoke()` up to its first wait, given the completion of the request to revoke the lease.
unfoldable pub revoke : Completion (Unit {0}) → Owner → Owner × Outcome (Unit {0})
unfolding in_shutdown begin_wait open_tracer close_tracer
revoke completion o =
    let s = record o.session { current_timer = none } in
    let (t, r) = with_trace (get (async_rpc_future completion)) s in
    if in_shutdown s.ops then (o, returns tt) else elim r [
      | throws e ↦ (record o { session = t }, throws e)
      | returns _ ↦ (
        (if t.ka_stream
            then record {
              session = record t { reads = begin_wait t.reads };
              stage = revoking_reads;
            }
            else record { session = record t { ops = begin_wait t.ops }; stage = revoking_ops }),
        returns tt,
      )
    ]

unfoldable pub close_stream : Bool → Bool → ℕ → M Session (Unit {0})
unfolding open_tracer close_tracer
close_stream done_ok finish_ok status = with_trace do
  get (async_writes_done_future done_ok)
  with_trace (get (async_finish_future finish_ok status) >>= check_grpc_status)

-- From there to its second wait: close the stream and wait for its status.
unfoldable pub revoke_close : Bool → Bool → ℕ → Owner → Owner × Outcome (Unit {0})
unfolding close_stream begin_wait
revoke_close done_ok finish_ok status o =
    let (t, r) = close_stream done_ok finish_ok status o.session in
    elim r [
      | throws e ↦ (record { session = t; stage = open_stage }, throws e)
      | returns _ ↦ (
        record { session = record t { ops = begin_wait t.ops }; stage = revoking_ops },
        returns tt,
      )
    ]

-- The destructor, up to its first wait.
unfoldable pub destroy : Owner → Owner
unfolding in_shutdown shutdown_reads
destroy o =
    if in_shutdown o.session.ops
    then record o { stage = ended_stage }
    else record { session = shutdown_reads o.session; stage = ending_reads }
