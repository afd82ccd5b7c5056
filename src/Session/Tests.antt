-- ===== src/Session/Tests.antt =====
-- A session whose server grants what it is asked for: it is built, renewed, revoked and destroyed.
use gee_h.Prelude.{ℕ, ◌≤◌, ◌≡◌, refl, true, false, [], ◌∷◌, length}
use gee_h.Counter.{all_done}
use gee_h.Counter
use gee_h.Effect.{returns, throws, lease_rejected, Completion}
use gee_h.Etcd.{LeaseGrantRequest, LeaseGrantResponse}
use gee_h.Session.{
  timer, Session, is_active, unopened, set_timer, on_timeout, on_write, on_read, Answer, respond,
}
use gee_h.Session.Lease.{
  grant_request, granted, open_session, preamble, shutdown_reads, shutdown_ops, open_stage, Owner,
  destroy, revoke, revoke_close, close_stream,
}
use gee_h.Session.Waits.{
  without, answers, revokes, reads_done, Lives, built, turned, destroys, pending-Lives,
}
use gee_h.Session.Revoked.{at_once, afterwards, revoked_for_good}
use gee_h.Session.Drain.{answered, all_answered, all_done-answered}
use gee_h.Session.Cycle.{renewed}

abbrev grant : LeaseGrantRequest → Completion LeaseGrantResponse
grant req = record {
  ok = true;
  status = 0;
  response = record { id = 77; ttl = req.ttl; error = [] };
}

abbrev refuse : LeaseGrantRequest → Completion LeaseGrantResponse
refuse req = record { ok = true; status = 0; response = record { id = 0; ttl = 0; error = 1 ∷ [] } }

abbrev yes : ℕ → ℕ → Answer
yes ttl now = record { ok = true; ttl = ttl; now = now }

abbrev no : Answer
no = record { ok = false; ttl = 0; now = 0 }

-- A session with a time to live of ten seconds, built at time 100.
fresh : Session
unfolding preamble open_session granted grant_request set_timer unopened Counter.new shutdown_reads
    shutdown_ops
fresh = (preamble grant true 100 (unopened 10500 0)).0

fresh_returns : (preamble grant true 100 (unopened 10500 0)).1 ≡ returns tt
unfolding fresh
fresh_returns = refl

abbrev young : Owner
young = record { session = (preamble grant true 100 (unopened 10500 0)).0; stage = open_stage }

young-Lives : Lives young
young-Lives = built grant true 100 10500 0 fresh_returns

fresh_test : fresh.queue ≡ timer 2100 ∷ []
unfolding fresh
fresh_test = refl

refused : (preamble refuse true 100 (unopened 10500 0)).1 ≡ throws lease_rejected
unfolding fresh
refused = refl

pending-Lives_example : length young.session.queue ≤ 1
pending-Lives_example = (pending-Lives young young-Lives).0

renewed_example :
    (all_answered (yes 0 2100 ∷ yes 0 2101 ∷ yes 10 2102 ∷ []) fresh).queue ≡ timer 4102 ∷ []
unfolding fresh
renewed_example =
    (renewed fresh 2100 (yes 0 2100) (yes 0 2101) (yes 10 2102) refl refl refl refl refl refl).2

reading : Session
unfolding fresh all_answered answered respond on_timeout on_write on_read
reading = all_answered (yes 0 2100 ∷ yes 0 2101 ∷ []) fresh

abbrev dying : Owner
dying = destroy young

dying-Lives : Lives dying
dying-Lives = turned young-Lives (destroys refl)

all_done-answered_example :
    (all_answered (yes 0 2100 ∷ yes 0 2101 ∷ no ∷ []) dying.session).queue ≡ []
unfolding fresh destroy
all_done-answered_example =
    (all_done-answered dying (yes 0 2100) (yes 0 2101) no dying-Lives refl).0

abbrev revoked : Completion (Unit {0})
revoked = record { ok = true; status = 0; response = tt }

-- `revoke()` at its second wait, with the timer of the keep-alives still in the queue.
closing : Owner
unfolding fresh revoke revoke_close close_stream
closing = (revoke_close true true 0 (revoke revoked young).0).0

closing-Lives : Lives closing
unfolding closing all_done
closing-Lives =
    turned (turned young-Lives (revokes revoked refl)) (reads_done true true 0 refl refl)

-- Then the timer expires.
abbrev expired : Owner
expired = record closing {
  session = respond (timer 2100) (yes 0 2100) (without [] [] closing.session);
}

revoked_for_good_example : is_active expired.session ≡ false
unfolding closing
revoked_for_good_example =
    revoked_for_good closing expired closing-Lives refl
      (afterwards at_once (answers [] [] (timer 2100) (yes 0 2100) refl))
