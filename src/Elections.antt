-- ===== src/Elections.antt =====
-- gh/leader_election.hpp and .cpp, gh/watch_election.hpp and .cpp: the classes that applications use.
-- They own a session and a candidate, or an observer, and pass their calls on.
pub mod Leadership
pub mod Histories
pub mod Sharing
mod Tests
use gee_h.Prelude.{ℕ, Bool, true, false, List, if◌then◌else◌}
use gee_h.Effect.{M, Outcome, returns, throws, Completion}
use gee_h.Etcd.{LeaseGrantRequest, LeaseGrantResponse, TxnRequest, TxnResponse}
use gee_h.Candidate.{Candidate}
use gee_h.Candidate
use gee_h.Candidate.Campaign.{World}
use gee_h.Candidate.Campaign
use gee_h.Candidate.Resign.{System, Phase, running, cancelling}
use gee_h.Candidate.Resign
use gee_h.Session.{Session, unopened}
use gee_h.Session.Lease.{Owner, open_stage, preamble}
use gee_h.Session.Lease
use gee_h.Observer.{Observer}
use gee_h.Observer
use gee_h.Observer.Events
use gee_h.Counter

-- `session_` and `candidate_`, each with the thread that runs its blocking calls.
pub record LeaderElection : Type 0 where
  pub session : Owner
  pub candidate : System

-- The candidate is made with the lease of the session; `campaign()` is not called.
unfoldable pub participate : List ℕ → List ℕ → Session × Outcome (Unit {0}) → Outcome LeaderElection
unfolding Candidate.new
participate election_name participant_value (s, throws e) = throws e
participate election_name participant_value (s, returns _) = returns (record {
  session = record { session = s; stage = open_stage };
  candidate = record {
    candidate = Candidate.new s.lease_id election_name participant_value;
    cancels = Counter.new;
    phase = running;
  };
})

-- The constructor opens the session first; `ok` and `now` are those of the session's stream and of
-- the clock.
unfoldable pub leader_election :
    (LeaseGrantRequest → Completion LeaseGrantResponse)
    → Bool
    → ℕ
    → List ℕ
    → List ℕ
    → ℕ
    → ℕ
    → Outcome LeaderElection
unfolding unopened preamble participate
leader_election grant ok now election_name participant_value desired_ttl lease_id =
    participate election_name participant_value
      (preamble grant ok now (unopened desired_ttl lease_id))

unfoldable pub elected : LeaderElection → Bool
elected l = l.candidate.candidate.elected

unfoldable pub key : LeaderElection → List ℕ
key l = l.candidate.candidate.candidate_key

unfoldable pub value : LeaderElection → List ℕ
value l = l.candidate.candidate.candidate_value

unfoldable pub creation_revision : LeaderElection → ℕ
creation_revision l = l.candidate.candidate.creation_revision

unfoldable pub lease_id : LeaderElection → ℕ
lease_id l = l.candidate.candidate.lease_id

-- The election and the server.
pub record Site (W : Type 0) : Type 0 where
  pub election : LeaderElection
  pub server : W

-- A method of the candidate, called through the election.
abbrev through : {W A : Type 0} → M (World W) A → M (Site W) A
through m s =
    let system = s.election.candidate in
    let (w, r) = m (record { candidate = system.candidate; server = s.server }) in
    (
      record {
        election = record s.election { candidate = record system { candidate = w.candidate } };
        server = w.server;
      },
      r,
    )

module _ {W : Type 0} (call : W → TxnRequest → W × Completion TxnResponse) where
  unfoldable pub proclaim : List ℕ → M (Site W) (Unit {0})
  unfolding Campaign.proclaim
  proclaim new_value = through (Campaign.proclaim call new_value)

  unfoldable pub campaign : Bool → M (Site W) (Unit {0})
  unfolding Campaign.campaign
  campaign ok = through (Campaign.campaign call ok)

unfoldable pub revoke_session : Completion (Unit {0}) → M LeaderElection (Unit {0})
unfolding Lease.revoke
revoke_session completion l =
    let (o, r) = Lease.revoke completion l.session in (record l { session = o }, r)

-- Whether the candidate's `resign()` blocks.
abbrev pub blocks : Phase → Bool
blocks cancelling = true
blocks _ = false

-- What follows a part of the candidate's `resign()`, unless it throws.
abbrev pub proceed :
    M LeaderElection (Unit {0})
    → LeaderElection
    → System × Outcome (Unit {0})
    → LeaderElection × Outcome (Unit {0})
proceed rest l (s, throws e) = (record l { candidate = s }, throws e)
proceed rest l (s, returns _) = rest (record l { candidate = s })

abbrev pub revoke_maybe : Completion (Unit {0}) → M LeaderElection (Unit {0})
revoke_maybe completion l =
    if blocks l.candidate.phase then (l, returns tt) else revoke_session completion l

-- `resign()` up to the first wait of the candidate's `resign()`, or to the wait of `revoke()` if
-- the candidate does not block.
unfoldable pub resign : Completion (Unit {0}) → M LeaderElection (Unit {0})
unfolding Resign.resign revoke_session
resign completion l = proceed (revoke_maybe completion) l (Resign.resign l.candidate)

-- From the last wait of the candidate's `resign()` to the first wait of `revoke()`.
unfoldable pub resign_close : Bool → Bool → ℕ → Completion (Unit {0}) → M LeaderElection (Unit {0})
unfolding Resign.resign_close revoke_session
resign_close done_ok finish_ok status completion l =
    proceed (revoke_session completion) l (Resign.resign_close done_ok finish_ok status l.candidate)

-- `observer_`
pub record WatchElection : Type 0 where
  pub observer : Observer

unfoldable pub watch_election : List ℕ → WatchElection
unfolding Observer.new
watch_election election_name = record { observer = Observer.new election_name }

-- A method of the observer, called through the watch.
abbrev observe : {A : Type 0} → M Observer A → M WatchElection A
observe m w = let (o, r) = m w.observer in (record { observer = o }, r)

unfoldable pub startup : Bool → M WatchElection (Unit {0})
unfolding Events.startup
startup ok = observe (Events.startup ok)

unfoldable pub shutdown : M WatchElection (Unit {0})
unfolding Events.shutdown
shutdown = observe Events.shutdown

unfoldable pub has_leader : WatchElection → Bool
unfolding Observer.has_leader
has_leader w = Observer.has_leader w.observer

unfoldable pub election_name : WatchElection → List ℕ
election_name w = w.observer.election_name

unfoldable pub current_key : WatchElection → Outcome (List ℕ)
unfolding Observer.current_key
current_key w = Observer.current_key w.observer

unfoldable pub current_value : WatchElection → Outcome (List ℕ)
unfolding Observer.current_value
current_value w = Observer.current_value w.observer

unfoldable pub subscribe : ℕ → WatchElection → WatchElection × ℕ
unfolding Observer.subscribe
subscribe subscriber w =
    let (o, token) = Observer.subscribe subscriber w.observer in (record { observer = o }, token)

unfoldable pub unsubscribe : ℕ → WatchElection → WatchElection
unfolding Observer.unsubscribe
unsubscribe token w = record { observer = Observer.unsubscribe token w.observer }
