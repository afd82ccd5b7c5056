-- ===== src/Client.antt =====
-- gh/detail/client_async_op.hpp and gh/etcd_client.hpp and .cpp: a client that asks for a lease, and the
-- operation that settles the promise of the answer.
pub mod Answers
mod Tests
use gee_h.Prelude.{
  ℕ, zero, suc, ◌*◌, Bool, true, false, List, [], ◌∷◌, Option, none, some, if◌then◌else◌, ◌==◌,
}
use gee_h.Effect.{Outcome, returns, throws, rpc_cancelled, broken_promise, Completion}
use gee_h.Etcd.{LeaseGrantRequest, LeaseGrantResponse}
use gee_h.Policies.{
  ExponentialBackoff, exponential_backoff, LimitedTime, limited_time, clone_limited_time,
}

-- An operation: its request and its policies, whether its call is in flight, its promise, and how
-- often the notifier was called.
pub record ClientAsyncOp (Q R : Type 0) : Type 0 where
  pub request : Q
  pub backoff : ExponentialBackoff
  pub retry : LimitedTime
  pub in_flight : Bool
  pub promise : Option (Outcome R)
  pub notified : ℕ

module _ {Q R : Type 0} where
  unfoldable pub create : ExponentialBackoff → LimitedTime → Q → ClientAsyncOp Q R
  create backoff retry request = record {
    request = request;
    backoff = backoff;
    retry = retry;
    in_flight = false;
    promise = none;
    notified = 0;
  }

  unfoldable pub start : ClientAsyncOp Q R → ClientAsyncOp Q R
  start op = record op { in_flight = true }

  unfoldable pub notify_value : R → ClientAsyncOp Q R → ClientAsyncOp Q R
  notify_value response op = record op {
    promise = some (returns response);
    notified = suc op.notified;
  }

  unfoldable pub notify_failure : ClientAsyncOp Q R → ClientAsyncOp Q R
  notify_failure op = record op {
    promise = some (throws rpc_cancelled);
    notified = suc op.notified;
  }

  -- The lambda of `start`, which the completion queue calls once.
  unfoldable pub on_response : Completion R → ClientAsyncOp Q R → ClientAsyncOp Q R
  unfolding notify_value notify_failure
  on_response c op =
      if c.ok then (if c.status == 0 then notify_value c.response op else op) else notify_failure op

  -- The destructor of the operation: that of `promise_` sets the exception `broken_promise` unless a
  -- result is set.
  unfoldable pub destroy : ClientAsyncOp Q R → ClientAsyncOp Q R
  destroy op = record op {
    in_flight = false;
    promise = elim op.promise [ none ↦ some (throws broken_promise) | some o ↦ some o ];
  }

  -- The completion queue calls the lambda. The lambda's `self` is the last reference to the operation
  -- when its caller is back with the future, so the operation ends with the lambda.
  unfoldable pub completed : Completion R → ClientAsyncOp Q R → ClientAsyncOp Q R
  unfolding on_response destroy
  completed c op = destroy (on_response c op)

-- The client; credentials only go to gRPC. Times are in milliseconds.
pub record EtcdClient : Type 0 where
  pub rpc_backoff : ExponentialBackoff
  pub rpc_retry : LimitedTime
  pub urls : List (List ℕ)

-- The constructor at time `now`: 10 ms to 15 min, for 4 h.
unfoldable pub new : ℕ → List ℕ → Outcome EtcdClient
unfolding exponential_backoff limited_time
new now url = elim (exponential_backoff 10 (15 * 60000)) [
  | throws e ↦ throws e
  | returns b ↦
      returns
        (record { rpc_backoff = b; rpc_retry = limited_time now (4 * 3600000); urls = url ∷ [] })
]

-- The url of the channel that the operations use.
unfoldable pub current_channel : EtcdClient → Option (List ℕ)
current_channel c = elim c.urls [ [] ↦ none | u ∷ us ↦ some u ]

-- `grant_lease` with a future: the operation, started. The cloned policies are not read again.
unfoldable pub grant_lease : ℕ → ℕ → EtcdClient → ClientAsyncOp LeaseGrantRequest LeaseGrantResponse
unfolding create start clone_limited_time
grant_lease now lease c =
    start
      (create c.rpc_backoff (clone_limited_time now c.rpc_retry) (record { id = lease; ttl = 100 }))

-- `grant_lease` with a functor clones the policies and makes a notifier, and starts nothing: the list
-- of the operations that it starts.
unfoldable pub grant_lease_functor :
    ℕ → ℕ → EtcdClient → List (ClientAsyncOp LeaseGrantRequest LeaseGrantResponse)
unfolding clone_limited_time
grant_lease_functor now lease c = []
