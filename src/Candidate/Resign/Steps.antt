-- ===== src/Candidate/Resign/Steps.antt =====
-- Every interleaving of the candidate's callbacks with the one thread of the application that
-- calls its methods and its destructor. A step is one callback, or one part of a method between its
-- waits. The index of a step counts the queries whose callback is told that they were cancelled.
use gee_h.Prelude.{ℕ, ◌+◌, ◌≡◌, Bool, true, false, List, ◌∷◌, ◌++◌}
use gee_h.Counter.{
  Counter, all_done, async_op_start, async_op_done, begin_wait, open_tracer, close_tracer,
}
use gee_h.Counter
use gee_h.Effect.{Completion}
use gee_h.Etcd.{TxnRequest, TxnResponse}
use gee_h.Candidate.{Op, range_query, watch_create, watch_read, watch_cancel, Candidate, new}
use gee_h.Candidate.Balance.{undone}
use gee_h.Candidate.Campaign.{World, campaign, proclaim}
use gee_h.Candidate.Resign.{
  Phase, running, cancelling, closing, resigned, destroying_ops, destroying_reads, destroyed,
  System, resign, resign_reads, resign_close, cleanup, cleanup_reads, Reply, callback,
}

-- The application may call a method.
abbrev pub is_idle : Phase → Bool
is_idle running = true
is_idle resigned = true
is_idle _ = false

-- The queries that this callback leaves on the counter.
abbrev pub lost : Op → Bool → ℕ
lost (range_query req) ok = undone ok
lost (watch_create req wkey wrevision) ok = 0
lost (watch_read wkey wrevision) ok = 0
lost (watch_cancel req w) ok = 0

-- The completion queue takes one operation out and runs its callback.
abbrev pub taken : List Op → List Op → System → System
taken xs ys s = let c = s.candidate in record s { candidate = record c { queue = xs ++ ys } }

abbrev pub with_candidate : Candidate → System → System
with_candidate c s = record s { candidate = c }

abbrev pub at_world : {W : Type 0} → System → W → World W
at_world s w = record { candidate = s.candidate; server = w }

module _ {W : Type 0} (call : W → TxnRequest → W × Completion TxnResponse) where
  pub data Step (s : System) : ℕ → System → Type 0 where
    campaigns :
        (ok : Bool) (w : W)
        → is_idle s.phase ≡ true
        → Step s 0 (with_candidate (campaign call ok (at_world s w)).0.candidate s)
    proclaims :
        (new_value : List ℕ) (w : W)
        → is_idle s.phase ≡ true
        → Step s 0 (with_candidate (proclaim call new_value (at_world s w)).0.candidate s)
    resigns : is_idle s.phase ≡ true → Step s 0 (resign s).0
    cancels_done : s.phase ≡ cancelling → all_done s.cancels ≡ true → Step s 0 (resign_reads s)
    reads_done :
        (done_ok finish_ok : Bool) (status : ℕ)
        → s.phase ≡ closing
        → all_done s.candidate.reads ≡ true
        → Step s 0 (resign_close done_ok finish_ok status s).0
    destroys : is_idle s.phase ≡ true → Step s 0 (cleanup s)
    ops_done :
        s.phase ≡ destroying_ops → all_done s.candidate.ops ≡ true → Step s 0 (cleanup_reads s)
    ended :
        s.phase ≡ destroying_reads
        → all_done s.candidate.reads ≡ true
        → Step s 0 (record s { phase = destroyed })
    completes :
        (xs ys : List Op) (op : Op) (r : Reply)
        → s.candidate.queue ≡ xs ++ op ∷ ys
        → Step s (lost op r.ok) (callback op r (taken xs ys s)).0

abbrev pub initial : ℕ → List ℕ → List ℕ → System
initial lease_id election_name candidate_value = record {
  candidate = new lease_id election_name candidate_value;
  cancels = Counter.new;
  phase = running;
}

module _ {W : Type 0} (call : W → TxnRequest → W × Completion TxnResponse) where
  -- The states after any history of a new candidate, by the number of cancelled queries.
  pub data Reach : ℕ → System → Type 0 where
    here :
        (lease_id : ℕ) (election_name candidate_value : List ℕ)
        → Reach 0 (initial lease_id election_name candidate_value)
    next : {k j : ℕ} {s t : System} → Reach k s → Step call s j t → Reach (j + k) t
