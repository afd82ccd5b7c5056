-- ===== src/Candidate/Tests/Nodes.antt =====
-- A candidate creates its node on an empty server, and proclaims a new value.
use gee_h.Prelude.{◌≡◌, ◌⊎◌, if◌then◌else◌, refl, none, some, [], ◌∷◌, arith, bytes_eq}
use gee_h.Counter
use gee_h.Counter.{open_tracer, close_tracer}
use gee_h.Effect.{Exception, returns, throws}
use gee_h.Candidate.{new}
use gee_h.Candidate.Key.{candidate_key}
use gee_h.Candidate.Campaign.{
  World, create_node, create_node_request, publish_request, transact, commit, publish_value,
  node_created, reuse_node, take_over, proclaim,
}
use gee_h.Candidate.Campaign.Node.{IsReady, node}
use gee_h.Candidate.Campaign.Create.{create_node-IsStanding, proclaim-IsStanding}
use gee_h.Candidate.Tests.Server.{Store, lookup, call, call-EtcdTxn}

abbrev start : World Store
start = record {
  candidate = new 10 (b'e' ∷ []) (1 ∷ []);
  server = record { revision = 0; entry = λ k. none };
}

-- The key is there, with another value and an older revision.
abbrev taken : World Store
taken = record start {
  server = record {
    revision = 7;
    entry = λ k. if bytes_eq (candidate_key (b'e' ∷ []) 10) k then some (9 ∷ [], 3) else none;
  };
}

start-IsReady : IsReady start.candidate
unfolding new Counter.new
start-IsReady = record { count = 0; accepting = refl; counted = refl }

take_over_test : (create_node call taken).0.candidate.creation_revision ≡ 4
unfolding create_node create_node_request publish_request commit transact open_tracer close_tracer
    node_created reuse_node take_over publish_value new candidate_key Counter.new
take_over_test = refl

create_node_returns : (create_node call taken).1 ≡ returns tt
unfolding create_node create_node_request publish_request commit transact open_tracer close_tracer
    node_created reuse_node take_over publish_value new candidate_key Counter.new
create_node_returns = refl

create_node-IsStanding_example :
    lookup (create_node call taken).0.server (create_node call taken).0.candidate.candidate_key
    ≡ some (node (create_node call taken).0.candidate)
create_node-IsStanding_example =
    create_node-IsStanding call lookup call-EtcdTxn taken start-IsReady create_node_returns

abbrev created : World Store
created = record start { candidate = record start.candidate { creation_revision = 1 } }

proclaim-IsStanding_example :
    let p = proclaim call (5 ∷ []) created in
    ((p.1 ≡ returns tt)
      × (p.0.candidate ≡ record created.candidate { candidate_value = 5 ∷ [] })
      × (lookup p.0.server created.candidate.candidate_key
          ≡ some (record (node created.candidate) { value = 5 ∷ [] })))
    ⊎ ((x : Exception) × (p.1 ≡ throws x) × (p.0.candidate ≡ created.candidate))
unfolding new Counter.new
proclaim-IsStanding_example =
    proclaim-IsStanding call lookup call-EtcdTxn (5 ∷ []) created
      (record { count = 0; accepting = refl; counted = refl }) (omega arith)
