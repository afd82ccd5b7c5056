-- ===== src/Elections/Sharing.antt =====
-- The lease that the session of an election and its candidate share.
use gee_h.Prelude.{ℕ, ◌≡◌, refl, sym, ap, ◌∙◌, Bool, Bool-cases, inl, inr, List, ◌++◌, subst, arith}
use gee_h.Effect.{M, Outcome, returns, throws, Completion}
use gee_h.Etcd.{TxnRequest, TxnResponse}
use gee_h.Candidate.{Candidate}
use gee_h.Candidate
use gee_h.Candidate.Key.{candidate_key, hex}
use gee_h.Candidate.Campaign.Named.{names_of}
use gee_h.Candidate.Resign.{System}
use gee_h.Candidate.Resign
use gee_h.Candidate.Resign.Steps.{initial, resigns, reads_done as closing_done}
use gee_h.Candidate.Resign.Names.{Step-names}
use gee_h.Session.{
  KeepAlive, timer, ka_write, ka_read, Session, Answer, unopened, set_timer, on_timeout, on_write,
  on_read, respond,
}
use gee_h.Session.Lease.{
  open_stage, Owner, preamble, shutdown_reads, shutdown_ops, revoke, close_stream, revoke_close,
  destroy,
}
use gee_h.Session.Waits.{
  Turn, without, answers, revokes, reads_done, ops_done, destroys, ending_reads_done,
  ending_ops_done,
}
use gee_h.Elections.{
  LeaderElection, participate, leader_election, resign, resign_close, revoke_session, proceed,
  revoke_maybe, blocks, lease_id, key,
}
use gee_h.Session.Renewals.{Renews, Lives-Renews}
use gee_h.Elections.Histories.{Runs, run-histories, joins, turns, steps, leaves, closes}

respond-lease_id :
    (op : KeepAlive) (e : Answer) (s : Session) → (respond op e s).lease_id ≡ s.lease_id
unfolding respond on_timeout on_write on_read set_timer
respond-lease_id (timer deadline) e s = ground arith
respond-lease_id (ka_write id) e s = ground arith
respond-lease_id ka_read e s = ground arith

revoke-lease_id :
    (completion : Completion (Unit {0})) (o : Owner)
    → (revoke completion o).0.session.lease_id ≡ o.session.lease_id
unfolding revoke
revoke-lease_id completion o = ground arith

revoke_close-lease_id :
    (done_ok finish_ok : Bool) (status : ℕ) (o : Owner)
    → (revoke_close done_ok finish_ok status o).0.session.lease_id ≡ o.session.lease_id
unfolding revoke_close close_stream
revoke_close-lease_id done_ok finish_ok status o = ground arith

destroy-lease_id : (o : Owner) → (destroy o).session.lease_id ≡ o.session.lease_id
unfolding destroy shutdown_reads
destroy-lease_id o = ground arith

Turn-lease_id : (o p : Owner) → Turn o p → p.session.lease_id ≡ o.session.lease_id
unfolding shutdown_ops
Turn-lease_id o _ (answers xs ys op e i) = respond-lease_id op e (without xs ys o.session)
Turn-lease_id o _ (revokes completion i) = revoke-lease_id completion o
Turn-lease_id o _ (reads_done done_ok finish_ok status p d) =
    revoke_close-lease_id done_ok finish_ok status o
Turn-lease_id o _ (ops_done p d) = refl
Turn-lease_id o _ (destroys i) = destroy-lease_id o
Turn-lease_id o _ (ending_reads_done p d) = refl
Turn-lease_id o _ (ending_ops_done p d) = refl

-- The session and the candidate have the lease `id`.
record IsLeased (id : ℕ) (l : LeaderElection) : Type 0 where
  session : l.session.session.lease_id ≡ id
  candidate : l.candidate.candidate.lease_id ≡ id
  keyed : l.candidate.candidate.candidate_key ≡ l.candidate.candidate.election_prefix ++ hex id

own : (id : ℕ) (l : LeaderElection) → IsLeased id l → IsLeased l.session.session.lease_id l
own id l v = subst (λ i. IsLeased i l) (sym v.session) v

participate-IsLeased :
    (name value : List ℕ) (p : Session × Outcome (Unit {0})) (l : LeaderElection)
    → participate name value p ≡ returns l
    → IsLeased l.session.session.lease_id l
unfolding participate Candidate.new candidate_key
participate-IsLeased name value (s, throws e) l h = absurd (ground arith)
participate-IsLeased name value (s, returns u) l h =
    let first : LeaderElection = record {
      session = record { session = s; stage = open_stage };
      candidate = initial s.lease_id name value;
    } in
    let same : first ≡ l = ground arith in
    let v : IsLeased s.lease_id first = record { session = refl; candidate = refl; keyed = refl } in
    subst (λ m. IsLeased m.session.session.lease_id m) same v

turned-IsLeased :
    (id : ℕ) (l : LeaderElection) (o : Owner)
    → Turn l.session o
    → IsLeased id l
    → IsLeased id (record l { session = o })
turned-IsLeased id l o t v = record {
  session = Turn-lease_id l.session o t ∙ v.session;
  candidate = v.candidate;
  keyed = v.keyed;
}

named-IsLeased :
    (id : ℕ) (l : LeaderElection) (s : System)
    → names_of s.candidate ≡ names_of l.candidate.candidate
    → IsLeased id l
    → IsLeased id (record l { candidate = s })
named-IsLeased id l s e v = record {
  session = v.session;
  candidate = ap (λ n. n.0) e ∙ v.candidate;
  keyed = ap (λ n. n.1) e ∙ v.keyed ∙ ap (λ n. n.2 ++ hex id) (sym e);
}

revoke_session-IsLeased :
    (id : ℕ) (completion : Completion (Unit {0})) (l : LeaderElection)
    → IsLeased id l
    → IsLeased id (revoke_session completion l).0
unfolding revoke_session
revoke_session-IsLeased id completion l v = record {
  session = revoke-lease_id completion l.session ∙ v.session;
  candidate = v.candidate;
  keyed = v.keyed;
}

maybe_revoked-IsLeased :
    (id : ℕ) (completion : Completion (Unit {0})) (l : LeaderElection)
    → IsLeased id l
    → IsLeased id (revoke_maybe completion l).0
maybe_revoked-IsLeased id completion l v = elim (Bool-cases (blocks l.candidate.phase)) [
  | inl waits ↦ simp waits v
  | inr passes ↦ simp passes (revoke_session-IsLeased id completion l v)
]

proceed-IsLeased :
    (id : ℕ) (rest : M LeaderElection (Unit {0})) (l : LeaderElection)
    (p : System × Outcome (Unit {0}))
    → ((m : LeaderElection) → IsLeased id m → IsLeased id (rest m).0)
    → names_of p.0.candidate ≡ names_of l.candidate.candidate
    → IsLeased id l
    → IsLeased id (proceed rest l p).0
proceed-IsLeased id rest l (s, throws e) h same v = named-IsLeased id l s same v
proceed-IsLeased id rest l (s, returns u) h same v =
    h (record l { candidate = s }) (named-IsLeased id l s same v)

module _ {W : Type 0} (call : W → TxnRequest → W × Completion TxnResponse) where
  Runs-IsLeased :
      (k : ℕ) (l : LeaderElection) → Runs call k l → IsLeased l.session.session.lease_id l
  unfolding leader_election resign resign_close
  Runs-IsLeased _ _ (joins grant ok now name value desired_ttl requested l e) =
      participate-IsLeased name value (preamble grant ok now (unopened desired_ttl requested)) l e
  Runs-IsLeased k _ (turns {l = l} {o = o} r t) =
      own l.session.session.lease_id _ (turned-IsLeased _ l o t (Runs-IsLeased k l r))
  Runs-IsLeased _ _ (steps {k = k} {j = j} {l = l} {s = s} r t) =
      named-IsLeased _ l s (Step-names call j l.candidate s t) (Runs-IsLeased k l r)
  Runs-IsLeased k _ (leaves {l = l} completion r idle stage) = own l.session.session.lease_id _ (
      proceed-IsLeased _ (revoke_maybe completion) l (Resign.resign l.candidate)
        (maybe_revoked-IsLeased _ completion) (Step-names call 0 l.candidate _ (resigns idle))
        (Runs-IsLeased k l r))
  Runs-IsLeased k _ (closes {l = l} done_ok finish_ok status completion r p d stage) =
      own l.session.session.lease_id _ (
        proceed-IsLeased _ (revoke_session completion) l
          (Resign.resign_close done_ok finish_ok status l.candidate)
          (revoke_session-IsLeased _ completion)
          (Step-names call 0 l.candidate _ (closing_done done_ok finish_ok status p d))
          (Runs-IsLeased k l r))

  -- In every history of an election, also while it resigns and after it has resigned, the session has
  -- the lease that the candidate has, the candidate's key ends in that lease in hexadecimal, and each
  -- keep-alive request that is outstanding is for that lease.
  pub Runs-one_lease :
      (k : ℕ) (l : LeaderElection)
      → Runs call k l
      → (l.session.session.lease_id ≡ lease_id l)
        × (key l ≡ l.candidate.candidate.election_prefix ++ hex (lease_id l))
        × Renews (lease_id l) l.session.session.queue
  unfolding lease_id key
  Runs-one_lease k l r =
      let v = Runs-IsLeased k l r in
      (
        sym v.candidate,
        v.keyed ∙ ap (λ i. l.candidate.candidate.election_prefix ++ hex i) (sym v.candidate),
        subst (λ i. Renews i l.session.session.queue) (sym v.candidate)
            (Lives-Renews l.session (run-histories call k l r).0),
      )
