-- ===== src/Session/Waits.antt =====
-- The counters of a session against its operations, in every history, and when its waits return.
use gee_h.Prelude.{
  ℕ, ◌≤◌, ◌≡◌, refl, ap, ◌∙◌, pos, Bool, true, false, List, [], ◌∷◌, ◌++◌, arith, length, total,
}
use gee_h.Counter.{Counter, all_done}
use gee_h.Counter
use gee_h.Effect.{Exception, returns, throws, Completion}
use gee_h.Etcd.{LeaseGrantRequest, LeaseGrantResponse}
use gee_h.Session.{
  KeepAlive, timer, ka_write, ka_read, Session, unopened, set_timer, on_timeout, on_write, on_read,
  Answer, respond,
}
use gee_h.Session.Lease.{
  granted, open_session, preamble, shutdown_reads, shutdown_ops, Stage, open_stage, revoking_reads,
  revoking_ops, ending_reads, ending_ops, ended_stage, Owner, revoke, close_stream, revoke_close,
  destroy,
}

-- The operations that `ops_` and `reads_` count.
abbrev pub on_ops : KeepAlive → ℕ
on_ops (timer deadline) = 1
on_ops (ka_write id) = 1
on_ops ka_read = 0

abbrev pub on_reads : KeepAlive → ℕ
on_reads (timer deadline) = 0
on_reads (ka_write id) = 0
on_reads ka_read = 1

-- At most one operation is outstanding, and the counters count it.
pub record IsCounted (s : Session) : Type 0 where
  pub single : length s.queue ≤ 1
  pub ops_exact : s.ops.pending ≡ pos (total on_ops s.queue)
  pub reads_exact : s.reads.pending ≡ pos (total on_reads s.queue)

-- The completion queue takes an operation out.
abbrev pub without : List KeepAlive → List KeepAlive → Session → Session
without xs ys s = record s { queue = xs ++ ys }

-- One step: a callback, or a part of a method between its waits.
pub data Turn (o : Owner) : Owner → Type 0 where
  answers :
      (xs ys : List KeepAlive) (op : KeepAlive) (e : Answer)
      → o.session.queue ≡ xs ++ op ∷ ys
      → Turn o (record o { session = respond op e (without xs ys o.session) })
  revokes :
      (completion : Completion (Unit {0})) → o.stage ≡ open_stage → Turn o (revoke completion o).0
  reads_done :
      (done_ok finish_ok : Bool) (status : ℕ)
      → o.stage ≡ revoking_reads
      → all_done o.session.reads ≡ true
      → Turn o (revoke_close done_ok finish_ok status o).0
  ops_done :
      o.stage ≡ revoking_ops
      → all_done o.session.ops ≡ true
      → Turn o (record o { stage = open_stage })
  destroys : o.stage ≡ open_stage → Turn o (destroy o)
  ending_reads_done :
      o.stage ≡ ending_reads
      → all_done o.session.reads ≡ true
      → Turn o (record { session = shutdown_ops o.session; stage = ending_ops })
  ending_ops_done :
      o.stage ≡ ending_ops
      → all_done o.session.ops ≡ true
      → Turn o (record o { stage = ended_stage })

set_timer-IsCounted :
    (now : ℕ) (s : Session)
    → s.queue ≡ []
    → s.ops.pending ≡ pos 0
    → s.reads.pending ≡ pos 0
    → IsCounted (set_timer now s)
unfolding set_timer
set_timer-IsCounted now s e p q = ground arith

respond-IsCounted :
    (op : KeepAlive) (e : Answer) (s : Session)
    → s.queue ≡ []
    → s.ops.pending ≡ pos (on_ops op)
    → s.reads.pending ≡ pos (on_reads op)
    → IsCounted (respond op e s)
unfolding respond on_timeout on_write on_read set_timer
respond-IsCounted (timer deadline) e s h p q = ground arith
respond-IsCounted (ka_write id) e s h p q = ground arith
respond-IsCounted ka_read e s h p q = ground arith

answers-IsCounted :
    (xs ys : List KeepAlive) (op : KeepAlive) (e : Answer) (s : Session)
    → s.queue ≡ xs ++ op ∷ ys
    → IsCounted s
    → IsCounted (respond op e (without xs ys s))
answers-IsCounted [] [] op e s h v =
    respond-IsCounted op e (without [] [] s) refl (ground arith) (ground arith)
answers-IsCounted [] (y ∷ ys) op e s h v = absurd (ground arith)
answers-IsCounted (x ∷ []) ys op e s h v = absurd (ground arith)
answers-IsCounted (x ∷ y ∷ xs) ys op e s h v = absurd (ground arith)

close_stream-IsCounted :
    (done_ok finish_ok : Bool) (status : ℕ) (s : Session)
    → s.ops.shutdown ≡ false
    → IsCounted s
    → IsCounted (close_stream done_ok finish_ok status s).0
unfolding close_stream
close_stream-IsCounted done_ok finish_ok status s h v = ground arith

abbrev is_closing : Stage → Bool
is_closing revoking_reads = true
is_closing _ = false

-- While `revoke()` waits for the reads, `ops_` is not shut down, so its tracers count.
record IsSound (o : Owner) : Type 0 where
  counted : IsCounted o.session
  counting : is_closing o.stage ≡ true → o.session.ops.shutdown ≡ false

respond-shutdown :
    (op : KeepAlive) (e : Answer) (s : Session) → (respond op e s).ops.shutdown ≡ s.ops.shutdown
unfolding respond on_timeout on_write on_read set_timer
respond-shutdown (timer deadline) e s = ground arith
respond-shutdown (ka_write id) e s = ground arith
respond-shutdown ka_read e s = ground arith

Turn-IsSound : {o p : Owner} → Turn o p → IsSound o → IsSound p
unfolding revoke revoke_close destroy shutdown_reads shutdown_ops
Turn-IsSound {o} (answers xs ys op e h) v = record {
  counted = answers-IsCounted xs ys op e o.session h v.counted;
  counting = λ c. respond-shutdown op e (without xs ys o.session) ∙ v.counting c;
}
Turn-IsSound {o} (revokes completion h) v = ground arith
Turn-IsSound {o} (reads_done done_ok finish_ok status h d) v =
    let s = o.session in
    let w = close_stream-IsCounted done_ok finish_ok status s (v.counting (ap is_closing h)) in
    ground (arith, w)
Turn-IsSound (ops_done h d) v = ground arith
Turn-IsSound {o} (destroys h) v = ground arith
Turn-IsSound {o} (ending_reads_done h d) v = ground arith
Turn-IsSound (ending_ops_done h d) v = ground arith

-- The histories of a session whose constructor returned.
pub data Lives : Owner → Type 0 where
  built :
      (grant : LeaseGrantRequest → Completion LeaseGrantResponse) (ok : Bool)
      (now desired_ttl lease_id : ℕ)
      → (preamble grant ok now (unopened desired_ttl lease_id)).1 ≡ returns tt
      → Lives (record {
        session = (preamble grant ok now (unopened desired_ttl lease_id)).0;
        stage = open_stage;
      })
  turned : {o p : Owner} → Lives o → Turn o p → Lives p

-- Whether or not the constructor throws.
preamble-IsCounted :
    (grant : LeaseGrantRequest → Completion LeaseGrantResponse) (ok : Bool)
    (now desired_ttl lease_id : ℕ)
    → IsCounted (preamble grant ok now (unopened desired_ttl lease_id)).0
unfolding preamble open_session granted set_timer unopened Counter.new shutdown_reads shutdown_ops
preamble-IsCounted grant ok now desired_ttl lease_id = ground arith

Lives-IsSound : {o : Owner} → Lives o → IsSound o
Lives-IsSound (built grant ok now desired_ttl lease_id h) = record {
  counted = preamble-IsCounted grant ok now desired_ttl lease_id;
  counting = λ c. absurd (ground arith);
}
Lives-IsSound (turned l t) = Turn-IsSound t (Lives-IsSound l)

-- In every history at most one timer, write or read is outstanding; `ops_` counts the timers and
-- writes in the completion queue, and `reads_` the reads.
pub pending-Lives :
    (o : Owner)
    → Lives o
    → (length o.session.queue ≤ 1)
      × (o.session.ops.pending ≡ pos (total on_ops o.session.queue))
      × (o.session.reads.pending ≡ pos (total on_reads o.session.queue))
pending-Lives o l =
    let v = Lives-IsSound l in (v.counted.single, v.counted.ops_exact, v.counted.reads_exact)

-- When the constructor throws, for whatever reason, its handler leaves nothing outstanding: the
-- waits of `shutdown()` return at once, and no operation can start any more.
pub preamble_throws :
    (grant : LeaseGrantRequest → Completion LeaseGrantResponse) (ok : Bool)
    (now desired_ttl lease_id : ℕ) (e : Exception)
    → (preamble grant ok now (unopened desired_ttl lease_id)).1 ≡ throws e
    → let s = (preamble grant ok now (unopened desired_ttl lease_id)).0 in
      (s.queue ≡ [])
      × (all_done s.reads ≡ true)
      × (all_done s.ops ≡ true)
      × (s.reads.shutdown ≡ true)
      × (s.ops.shutdown ≡ true)
unfolding preamble open_session granted set_timer unopened Counter.new shutdown_reads shutdown_ops
    all_done
preamble_throws grant ok now desired_ttl lease_id e h = ground arith
