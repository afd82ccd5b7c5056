-- ===== src/Session/Drain.antt =====
-- The destructor's waits: how many callbacks can still run.
use gee_h.Prelude.{ℕ, suc, ◌≤◌, ◌≡◌, refl, pos, true, List, [], ◌∷◌, arith, length, total}
use gee_h.Counter.{all_done}
use gee_h.Session.{
  KeepAlive, timer, ka_write, ka_read, Session, set_timer, on_timeout, on_write, on_read, Answer,
  respond,
}
use gee_h.Session.Lease.{Owner}
use gee_h.Session.Waits.{on_ops, on_reads, Lives, pending-Lives}

-- The completion queue takes its first operation, if any, and runs the callback.
unfoldable pub answered : Answer → Session → Session
answered e s = elim s.queue [ [] ↦ s | op ∷ ops ↦ respond op e (record s { queue = ops }) ]

unfoldable pub all_answered : List Answer → Session → Session
all_answered [] s = s
all_answered (e ∷ es) s = all_answered es (answered e s)

-- How many more callbacks an operation can lead to, its own included, once no read can start.
abbrev rank : KeepAlive → ℕ
rank ka_read = 3
rank (timer deadline) = 2
rank (ka_write id) = 1

record Ranked (n : ℕ) (s : Session) : Type 0 where
  shut : s.reads.shutdown ≡ true
  below : total rank s.queue ≤ n
  single : length s.queue ≤ 1
  ops_exact : s.ops.pending ≡ pos (total on_ops s.queue)
  reads_exact : s.reads.pending ≡ pos (total on_reads s.queue)

respond-Ranked :
    (n : ℕ) (op : KeepAlive) (e : Answer) (s : Session)
    → s.queue ≡ op ∷ []
    → Ranked (suc n) s
    → Ranked n (respond op e (record s { queue = [] }))
unfolding respond on_timeout on_write on_read set_timer
respond-Ranked n (timer deadline) e s h v = ground arith
respond-Ranked n (ka_write id) e s h v = ground arith
respond-Ranked n ka_read e s h v = ground arith

answered-Ranked : (n : ℕ) (e : Answer) (s : Session) → Ranked (suc n) s → Ranked n (answered e s)
unfolding answered
answered-Ranked n e s v = go s.queue refl
  where
    go : (q : List KeepAlive) → s.queue ≡ q → Ranked n (answered e s)
    go [] h = rw h (ground arith)
    go (op ∷ []) h = rw h (respond-Ranked n op e s h v)
    go (op ∷ x ∷ xs) h = absurd (ground arith)

all_answered-Ranked :
    (n : ℕ) (es : List Answer) (s : Session) → Ranked (length es) s → Ranked 0 (all_answered es s)
unfolding all_answered
all_answered-Ranked n [] s v = v
all_answered-Ranked n (e ∷ es) s v =
    all_answered-Ranked n es (answered e s) (answered-Ranked (length es) e s v)

rank_single : (q : List KeepAlive) → length q ≤ 1 → total rank q ≤ 3
rank_single [] h = omega arith
rank_single (timer deadline ∷ []) h = omega arith
rank_single (ka_write id ∷ []) h = omega arith
rank_single (ka_read ∷ []) h = omega arith
rank_single (x ∷ y ∷ q) h = absurd (ground arith)

no_rank : (q : List KeepAlive) → total rank q ≤ 0 → q ≡ []
no_rank [] h = refl
no_rank (timer deadline ∷ q) h = absurd (omega arith)
no_rank (ka_write id ∷ q) h = absurd (omega arith)
no_rank (ka_read ∷ q) h = absurd (omega arith)

Ranked-all_done :
    (s : Session)
    → Ranked 0 s
    → (s.queue ≡ []) × (all_done s.ops ≡ true) × (all_done s.reads ≡ true)
unfolding all_done
Ranked-all_done s v = ground (arith, no_rank s.queue v.below)

-- In every history, once `revoke()` or the destructor has shut `reads_` down, after three more
-- callbacks, whatever the completions bring, nothing is outstanding and both waits hold.
pub all_done-answered :
    (o : Owner) (first second third : Answer)
    → Lives o
    → o.session.reads.shutdown ≡ true
    → let s = all_answered (first ∷ second ∷ third ∷ []) o.session in
      (s.queue ≡ []) × (all_done s.ops ≡ true) × (all_done s.reads ≡ true)
all_done-answered o first second third l h =
    let (single, ops, reads) = pending-Lives o l in
    Ranked-all_done _ (
      all_answered-Ranked 3 (first ∷ second ∷ third ∷ []) o.session (record {
        shut = h;
        below = rank_single o.session.queue single;
        single = single;
        ops_exact = ops;
        reads_exact = reads;
      }))
