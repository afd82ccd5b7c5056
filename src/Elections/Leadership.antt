-- ===== src/Elections/Leadership.antt =====
-- What an election makes of its session and its candidate together.
use gee_h.Prelude.{ℕ, ◌/◌, ◌≡◌, Bool, true, false, ◌&&◌, List, arith, ap, ◌∙◌}
use gee_h.Effect.{Outcome, is_returns, returns, throws, Completion}
use gee_h.Etcd.{LeaseGrantRequest, LeaseGrantResponse}
use gee_h.Candidate
use gee_h.Candidate.Key.{candidate_key}
use gee_h.Candidate.Resign
use gee_h.Session.{Session, is_active, unopened}
use gee_h.Session.Lease.{preamble}
use gee_h.Session.Cycle.{preamble_returns}
use gee_h.Elections.{
  LeaderElection, participate, leader_election, elected, key, value, lease_id, resign_close,
}

participate-returns :
    (name participant : List ℕ) (p : Session × Outcome (Unit {0})) (l : LeaderElection)
    → participate name participant p ≡ returns l
    → (p.1 ≡ returns tt)
      × (l.session.session ≡ p.0)
      × (l.candidate.candidate ≡ Candidate.new p.0.lease_id name participant)
unfolding participate Candidate.new
participate-returns name participant (s, throws e) l h = ground arith
participate-returns name participant (s, returns u) l h = ground arith

-- When the constructor returns, the session is active, and its lease is the one that the server
-- granted. The candidate has that lease, the key that is made from it and the participant's value, and
-- it is not elected.
pub leader_election-returns :
    (grant : LeaseGrantRequest → Completion LeaseGrantResponse) (ok : Bool) (now : ℕ)
    (name participant : List ℕ) (desired_ttl requested : ℕ) (l : LeaderElection)
    → leader_election grant ok now name participant desired_ttl requested ≡ returns l
    → let resp = (grant (record { id = requested; ttl = desired_ttl / 1000 })).response in
      (is_active l.session.session ≡ true)
      × (l.session.session.lease_id ≡ resp.id)
      × (lease_id l ≡ resp.id)
      × (key l ≡ candidate_key name resp.id)
      × (value l ≡ participant)
      × (elected l ≡ false)
unfolding leader_election lease_id key value elected Candidate.new
leader_election-returns grant ok now name participant desired_ttl requested l h =
    let p = preamble grant ok now (unopened desired_ttl requested) in
    let (done, session, candidate) = participate-returns name participant p l h in
    let (leased, _, _, active) = preamble_returns grant ok now desired_ttl requested done in
    let named = candidate ∙ ap (λ i. Candidate.new i name participant) leased in
    (
      ap is_active session ∙ active,
      ap (λ s. s.lease_id) session ∙ leased,
      ap (λ c. c.lease_id) named,
      ap (λ c. c.candidate_key) named,
      ap (λ c. c.candidate_value) named,
      ap (λ c. c.elected) named,
    )

-- When closing the candidate's stream is cancelled, `resign()` throws before it comes to the
-- session: the lease is not revoked, and its keep-alives go on.
pub resign_close-cancelled :
    (done_ok finish_ok : Bool) (status : ℕ) (completion : Completion (Unit {0}))
    (l : LeaderElection)
    → done_ok && finish_ok ≡ false
    → let (after, r) = resign_close done_ok finish_ok status completion l in
      (is_returns r ≡ false) × (after.session ≡ l.session) × (elected after ≡ elected l)
unfolding resign_close Resign.resign_close elected
resign_close-cancelled done_ok finish_ok status completion l h = ground arith
