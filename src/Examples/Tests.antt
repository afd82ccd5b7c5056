-- ===== src/Examples/Tests.antt =====
-- The examples on a server that accepts every call: the candidate is elected, or its election is
-- aborted, in the second sleep, and the user interrupts the program in the fourth.
use gee_h.Prelude.{
  codes, ℕ, ◌≡◌, refl, Bool, true, false, List, [], ◌∷◌, Option, none, some, if◌then◌else◌, ◌==◌,
  leb,
}
use gee_h.Counter
use gee_h.Effect.{Completion}
use gee_h.Etcd.{LeaseGrantRequest, LeaseGrantResponse, TxnRequest, TxnResponse}
use gee_h.Candidate
use gee_h.Candidate.{election_result}
use gee_h.Candidate.Campaign.{
  campaign_impl, create_watch_stream, node_and_query, create_node, commit, node_created,
}
use gee_h.Candidate.Query.{query_predecessor}
use gee_h.Candidate.Resign.{cancel_watches}
use gee_h.Elections.{Site}
use gee_h.Observer
use gee_h.Examples.Join.{Ended, won_text}
use gee_h.Examples.Join
use gee_h.Examples.Observe.{Observed, subscriber}
use gee_h.Examples.Observe
use gee_h.Examples.Endings.{is_some, main-ends}

abbrev fine : {R : Type 0} → R → Completion R
fine r = record { ok = true; status = 0; response = r }

abbrev call : ℕ → TxnRequest → ℕ × Completion TxnResponse
call w req = (w, fine (record { revision = 5; succeeded = true; responses = [] }))

abbrev grant : LeaseGrantRequest → Completion LeaseGrantResponse
grant req = fine (record { id = 7; ttl = 5; error = [] })

-- The result comes in the second sleep.
unfoldable background : Bool → ℕ → Site ℕ → Site ℕ
unfolding election_result
background result n s =
    let system = s.election.candidate in
    if n == 1
    then record s {
      election = record s.election {
        candidate = record system { candidate = election_result result system.candidate };
      };
    }
    else s

abbrev interrupted : ℕ → Bool
interrupted n = leb 3 n

abbrev arguments : List (List ℕ)
arguments = codes "test" ∷ codes "a" ∷ []

unfoldable join : Bool → Option Ended
unfolding Join.main background Candidate.new Counter.new campaign_impl create_watch_stream
    node_and_query create_node commit node_created query_predecessor cancel_watches
join result =
    Join.main call (background result) interrupted (fine tt) grant true true 0 4 arguments 0

join_test :
    (join true ≡ some (record { exit_status = 0; printed = won_text ∷ [] }))
    × (join false ≡ some (record { exit_status = 1; printed = [] }))
unfolding join
join_test = (refl, refl)

ends_test :
    is_some (Join.main call (background true) interrupted (fine tt) grant true true 0 4 arguments 0)
    ≡ true
ends_test =
    main-ends call (background true) interrupted (fine tt) 3 refl grant true true 0 arguments 0

abbrev status_of : Option (Option Observed) → Option ℕ
status_of none = some 1
status_of (some none) = none
status_of (some (some o)) = some o.exit_status

-- An interrupt in the fourth sleep, a stream that is not created, and no argument at all.
unfoldable observe : Bool → List (List ℕ) → Option ℕ
unfolding Observe.main Observer.new Counter.new
observe ok args = status_of (Observe.main (λ n w. w) interrupted 4 ok args)

observe_test :
    (observe true (codes "test" ∷ []) ≡ some 0)
    × (observe false (codes "test" ∷ []) ≡ some 1)
    × (observe true [] ≡ some 1)
unfolding observe
observe_test = (refl, refl, refl)

subscriber_test :
    (subscriber [] [] ≡ codes "no current leader")
    × (subscriber (codes "k") (codes "v") ≡ codes "current leader is k, with value=v")
unfolding subscriber
subscriber_test = (refl, refl)
