-- ===== src/Elections/Tests.antt =====
-- An election whose lease is granted, which is resigned with and without a failure.
use gee_h.Prelude.{ℕ, ◌≡◌, refl, true, false, List, [], ◌∷◌, ◌++◌}
use gee_h.Counter
use gee_h.Effect.{returns, Completion}
use gee_h.Etcd.{LeaseGrantRequest, LeaseGrantResponse, TxnRequest, TxnResponse}
use gee_h.Candidate
use gee_h.Candidate.Key.{candidate_key, hex}
use gee_h.Candidate.Resign.{closing}
use gee_h.Candidate.Resign
use gee_h.Counter.{async_op_start, async_op_done}
use gee_h.Elections.Histories.{Runs, joins, turns, leaves}
use gee_h.Elections.Sharing.{Runs-one_lease}
use gee_h.Session.Renewals.{Renews}
use gee_h.Session.Waits.{without, answers}
use gee_h.Session.{
  KeepAlive, timer, ka_write, Answer, respond, on_timeout, is_active, unopened, set_timer,
}
use gee_h.Session.Lease.{Owner, open_stage, revoke, preamble, open_session, granted, grant_request}
use gee_h.Observer
use gee_h.Elections.{
  LeaderElection, lease_id, leader_election, participate, key, resign, resign_close, revoke_session,
  watch_election, has_leader, subscribe,
}
use gee_h.Elections.Leadership.{leader_election-returns, resign_close-cancelled}

abbrev grant : LeaseGrantRequest → Completion LeaseGrantResponse
grant req = record {
  ok = true;
  status = 0;
  response = record { id = 77; ttl = req.ttl; error = [] };
}

abbrev ballot : List ℕ
ballot = b'e' ∷ []

abbrev banner : List ℕ
banner = b'v' ∷ []

-- The election that the constructor returns at time 100.
joined : LeaderElection
unfolding preamble open_session granted grant_request set_timer unopened Counter.new
joined = record {
  session = record { session = (preamble grant true 100 (unopened 10500 0)).0; stage = open_stage };
  candidate = record {
    candidate = Candidate.new 77 ballot banner;
    cancels = Counter.new;
    phase = Resign.running;
  };
}

joined_test : leader_election grant true 100 ballot banner 10500 0 ≡ returns joined
unfolding joined leader_election participate
joined_test = refl

leader_election-returns_example : key joined ≡ candidate_key ballot 77
leader_election-returns_example =
    (leader_election-returns grant true 100 ballot banner 10500 0 joined joined_test).3

abbrev revoked : Completion (Unit {0})
revoked = record { ok = true; status = 0; response = tt }

-- A candidate without a stream does not block, so the session is revoked at once.
resign_test : is_active (resign revoked joined).0.session.session ≡ false
unfolding joined resign Resign.resign Resign.cancel_watches revoke_session revoke is_active
    Candidate.new
resign_test = refl

abbrev waiting : LeaderElection
waiting = record joined { candidate = record joined.candidate { phase = closing } }

resign_close-cancelled_test : (resign_close false true 0 revoked waiting).0.session ≡ joined.session
resign_close-cancelled_test = (resign_close-cancelled false true 0 revoked waiting refl).1

watch_test :
    (has_leader (watch_election ballot) ≡ false) × ((subscribe 5 (watch_election ballot)).1 ≡ 1)
unfolding has_leader watch_election Observer.new Observer.has_leader subscribe Observer.subscribe
watch_test = (refl, refl)

-- A server that no request reaches.
abbrev unreached : Unit {0} → TxnRequest → Unit {0} × Completion TxnResponse
unreached w req = (
  w,
  record {
    ok = false;
    status = 0;
    response = record { revision = 0; succeeded = false; responses = [] };
  },
)

-- The session's first timer expires; then the application resigns.
abbrev first_timer : KeepAlive
first_timer = timer 2100

abbrev expired : Answer
expired = record { ok = true; ttl = 0; now = 2100 }

abbrev renewing : Owner
renewing = record joined.session {
  session = respond first_timer expired (without [] [] joined.session.session);
}

keeping : LeaderElection
unfolding joined
keeping = record joined { session = renewing }

renewing_test : keeping.session.session.queue ≡ ka_write 77 ∷ []
unfolding keeping joined respond on_timeout async_op_start async_op_done
renewing_test = refl

kept : Runs unreached 0 keeping
unfolding keeping joined
kept =
    turns (joins grant true 100 ballot banner 10500 0 joined joined_test)
      (answers [] [] first_timer expired refl)

resigned : LeaderElection
unfolding keeping
resigned = (resign revoked keeping).0

left : Runs unreached 0 resigned
unfolding resigned keeping joined
left = leaves revoked kept refl refl

Runs-one_lease_example :
    (resigned.session.session.lease_id ≡ lease_id resigned)
    × (key resigned ≡ resigned.candidate.candidate.election_prefix ++ hex (lease_id resigned))
    × Renews (lease_id resigned) resigned.session.session.queue
Runs-one_lease_example = Runs-one_lease unreached 0 resigned left
