-- ===== src/Client/Tests.antt =====
-- A client that asks for a lease, and is answered with an error status and then by a cancellation.
use gee_h.Prelude.{codes, ℕ, Bool, ◌≡◌, refl, true, false, List, [], ◌∷◌, some}
use gee_h.Effect.{Outcome, returns, throws, Completion}
use gee_h.Etcd.{LeaseGrantRequest, LeaseGrantResponse}
use gee_h.Client.{ClientAsyncOp, EtcdClient, new, grant_lease, current_channel}

abbrev here : List ℕ
here = codes "host"

abbrev client : EtcdClient
client = record {
  rpc_backoff = record { min_delay = 10; max_delay = 900000; current_delay = 10 };
  rpc_retry = record { duration = 14400000; deadline = 14400005 };
  urls = here ∷ [];
}

new_test : new 5 here ≡ returns client
unfolding new
new_test = refl

current_channel_test : current_channel client ≡ some here
unfolding current_channel
current_channel_test = refl

-- `TEST(etcd_client, simple)`: the client at `localhost`, and the operation that it starts.
unfoldable simple : Outcome (ClientAsyncOp LeaseGrantRequest LeaseGrantResponse)
unfolding new grant_lease
simple = elim (new 5 here) [ throws e ↦ throws e | returns c ↦ returns (grant_lease 5 1234 c) ]

abbrev is_in_flight : Outcome (ClientAsyncOp LeaseGrantRequest LeaseGrantResponse) → Bool
is_in_flight (throws e) = false
is_in_flight (returns op) = op.in_flight

simple_test : is_in_flight simple ≡ true
unfolding simple
simple_test = refl

abbrev granted : LeaseGrantResponse
granted = record { id = 7; ttl = 100; error = [] }

abbrev failed : Completion LeaseGrantResponse
failed = record { ok = true; status = 14; response = granted }

abbrev cancelled : Completion LeaseGrantResponse
cancelled = record { ok = false; status = 0; response = granted }
