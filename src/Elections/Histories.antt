-- ===== src/Elections/Histories.antt =====
-- The histories of an election: the callbacks of its session and of its candidate interleave with the
-- thread that calls its methods.
use gee_h.Prelude.{ℕ, ◌+◌, ◌≡◌, refl, subst, Bool, Bool-cases, inl, inr, true, List, arith}
use gee_h.Counter.{all_done}
use gee_h.Effect.{M, Outcome, returns, throws, Completion}
use gee_h.Etcd.{LeaseGrantRequest, LeaseGrantResponse, TxnRequest, TxnResponse}
use gee_h.Candidate
use gee_h.Candidate.Resign.{System, closing}
use gee_h.Candidate.Resign
use gee_h.Candidate.Resign.Steps.{Step, is_idle, resigns, reads_done, Reach, here, next, initial}
use gee_h.Session.{Session, unopened}
use gee_h.Session.Lease.{Owner, open_stage, preamble}
use gee_h.Session.Waits.{Turn, revokes, Lives, built, turned}
use gee_h.Elections.{
  LeaderElection, participate, leader_election, resign, resign_close, revoke_session, blocks,
  proceed, revoke_maybe,
}

module _ {W : Type 0} (call : W → TxnRequest → W × Completion TxnResponse) where
  -- A turn is a callback of the session, or the end of a wait of its `revoke()` or its destructor; a
  -- step is a callback of the candidate, a call of `campaign()` or `proclaim()`, or the end of a wait.
  -- `resign()` is cut at its waits. The index counts the candidate's cancelled queries.
  pub data Runs : ℕ → LeaderElection → Type 0 where
    joins :
        (grant : LeaseGrantRequest → Completion LeaseGrantResponse) (ok : Bool) (now : ℕ)
        (name value : List ℕ) (desired_ttl requested : ℕ) (l : LeaderElection)
        → leader_election grant ok now name value desired_ttl requested ≡ returns l
        → Runs 0 l
    turns :
        {k : ℕ} {l : LeaderElection} {o : Owner}
        → Runs k l
        → Turn l.session o
        → Runs k (record l { session = o })
    steps :
        {k j : ℕ} {l : LeaderElection} {s : System}
        → Runs k l
        → Step call l.candidate j s
        → Runs (j + k) (record l { candidate = s })
    leaves :
        {k : ℕ} {l : LeaderElection} (completion : Completion (Unit {0}))
        → Runs k l
        → is_idle l.candidate.phase ≡ true
        → l.session.stage ≡ open_stage
        → Runs k (resign completion l).0
    closes :
        {k : ℕ} {l : LeaderElection} (done_ok finish_ok : Bool) (status : ℕ)
        (completion : Completion (Unit {0}))
        → Runs k l
        → l.candidate.phase ≡ closing
        → all_done l.candidate.candidate.reads ≡ true
        → l.session.stage ≡ open_stage
        → Runs k (resign_close done_ok finish_ok status completion l).0

  -- The history of an election is one of its session and one of its candidate.
  record IsRun (k : ℕ) (l : LeaderElection) : Type 0 where
    lives : Lives l.session
    reached : Reach call k l.candidate

  joined-IsRun :
      (name value : List ℕ) (p : Session × Outcome (Unit {0})) (l : LeaderElection)
      → (p.1 ≡ returns tt → Lives (record { session = p.0; stage = open_stage }))
      → participate name value p ≡ returns l
      → IsRun 0 l
  unfolding participate Candidate.new
  joined-IsRun name value (s, throws e) l h r = absurd (ground arith)
  joined-IsRun name value (s, returns u) l h r =
      let first : LeaderElection = record {
        session = record { session = s; stage = open_stage };
        candidate = initial s.lease_id name value;
      } in
      let same : first ≡ l = ground arith in
      subst (IsRun 0) same (record { lives = h refl; reached = here s.lease_id name value })

  revoke_session-IsRun :
      (k : ℕ) (completion : Completion (Unit {0})) (l : LeaderElection)
      → l.session.stage ≡ open_stage
      → IsRun k l
      → IsRun k (revoke_session completion l).0
  unfolding revoke_session
  revoke_session-IsRun k completion l h v = record {
    lives = turned v.lives (revokes completion h);
    reached = v.reached;
  }

  maybe_revoked-IsRun :
      (k : ℕ) (completion : Completion (Unit {0})) (l : LeaderElection)
      → l.session.stage ≡ open_stage
      → IsRun k l
      → IsRun k (revoke_maybe completion l).0
  maybe_revoked-IsRun k completion l h v = elim (Bool-cases (blocks l.candidate.phase)) [
    | inl waits ↦ simp waits v
    | inr passes ↦ simp passes (revoke_session-IsRun k completion l h v)
  ]

  proceed-IsRun :
      (k : ℕ) (rest : M LeaderElection (Unit {0})) (l : LeaderElection)
      (p : System × Outcome (Unit {0}))
      → ((m : LeaderElection) → m.session.stage ≡ open_stage → IsRun k m → IsRun k (rest m).0)
      → l.session.stage ≡ open_stage
      → Lives l.session
      → Reach call k p.0
      → IsRun k (proceed rest l p).0
  proceed-IsRun k rest l (s, throws e) h stage lives reached = record {
    lives = lives;
    reached = reached;
  }
  proceed-IsRun k rest l (s, returns u) h stage lives reached =
      h (record l { candidate = s }) stage (record { lives = lives; reached = reached })

  same_count : (k : ℕ) (s t : System) → Reach call k s → Step call s 0 t → Reach call k t
  same_count k s t v step =
      let n : ℕ = 0 + k in
      let same : n ≡ k = omega arith in subst (λ i. Reach call i t) same (next v step)

  Runs-IsRun : (k : ℕ) (l : LeaderElection) → Runs k l → IsRun k l
  unfolding leader_election resign resign_close
  Runs-IsRun _ _ (joins grant ok now name value desired_ttl requested l e) =
      joined-IsRun name value (preamble grant ok now (unopened desired_ttl requested)) l
        (built grant ok now desired_ttl requested) e
  Runs-IsRun k _ (turns r t) =
      let v = Runs-IsRun k _ r in record { lives = turned v.lives t; reached = v.reached }
  Runs-IsRun _ _ (steps {k = k} r s) =
      let v = Runs-IsRun k _ r in record { lives = v.lives; reached = next v.reached s }
  Runs-IsRun k _ (leaves {l = l} completion r idle stage) =
      let v = Runs-IsRun k l r in
      proceed-IsRun k (revoke_maybe completion) l (Resign.resign l.candidate)
        (maybe_revoked-IsRun k completion) stage v.lives
        (same_count k l.candidate _ v.reached (resigns idle))
  Runs-IsRun k _ (closes {l = l} done_ok finish_ok status completion r p d stage) =
      let v = Runs-IsRun k l r in
      proceed-IsRun k (revoke_session completion) l
        (Resign.resign_close done_ok finish_ok status l.candidate)
        (revoke_session-IsRun k completion) stage v.lives
        (same_count k l.candidate _ v.reached (reads_done done_ok finish_ok status p d))

  -- Every history of an election is a history of its session and one of its candidate. So all that
  -- holds in the histories of either holds in those of the election.
  pub run-histories :
      (k : ℕ) (l : LeaderElection) → Runs k l → Lives l.session × Reach call k l.candidate
  run-histories k l r = let v = Runs-IsRun k l r in (v.lives, v.reached)
