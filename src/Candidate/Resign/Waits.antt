-- ===== src/Candidate/Resign/Waits.antt =====
-- When the waits of the destructor return.
use gee_h.Prelude.{ℕ, suc, ◌+◌, ◌≡◌, pos, true, false, [], arith, total}
use gee_h.Counter.{all_done}
use gee_h.Effect.{Completion}
use gee_h.Etcd.{TxnRequest, TxnResponse}
use gee_h.Candidate.{range_query, watch_create, watch_read, watch_cancel}
use gee_h.Candidate.Balance.{on_ops, on_reads}
use gee_h.Candidate.Resign.{System, destroying_ops, callback}
use gee_h.Candidate.Resign.Steps.{
  Step, campaigns, proclaims, resigns, cancels_done, reads_done, destroys, ops_done, ended,
  completes, Reach,
}
use gee_h.Candidate.Resign.Reached.{Reach-Inv}

module _ {W : Type 0} {call : W → TxnRequest → W × Completion TxnResponse} where
  -- In every reachable state `ops_` counts the queries and watcher requests in the completion queue,
  -- and one more for each query whose callback was told that it was cancelled; `reads_` counts the
  -- reads in the completion queue.
  pub pending-Reach :
      (k : ℕ) (s : System)
      → Reach call k s
      → (s.candidate.ops.pending ≡ pos (k + total on_ops s.candidate.queue))
        × (s.candidate.reads.pending ≡ pos (total on_reads s.candidate.queue))
  pending-Reach k s r = let (n, v) = Reach-Inv r in ground (arith, v.balanced)

  -- If no query was cancelled, both waits of the destructor can return once every callback has run.
  pub all_done-Reach :
      (s : System)
      → Reach call 0 s
      → s.candidate.queue ≡ []
      → (all_done s.candidate.ops ≡ true) × (all_done s.candidate.reads ≡ true)
  unfolding all_done
  all_done-Reach s r e = ground (arith, pending-Reach 0 s r)

  stuck : (k : ℕ) (s : System) → Reach call (suc k) s → all_done s.candidate.ops ≡ false
  unfolding all_done
  stuck k s r = ground (arith, pending-Reach (suc k) s r)

  -- Once one query was cancelled, the destructor never leaves its first wait, whatever happens.
  pub destroying_ops_forever :
      (k j : ℕ) (s t : System)
      → Reach call (suc k) s
      → s.phase ≡ destroying_ops
      → Step call s j t
      → t.phase ≡ destroying_ops
  unfolding callback
  destroying_ops_forever k j s t r h (campaigns ok w i) = h
  destroying_ops_forever k j s t r h (proclaims v w i) = h
  destroying_ops_forever k j s t r h (resigns i) = ground arith
  destroying_ops_forever k j s t r h (cancels_done p d) = ground arith
  destroying_ops_forever k j s t r h (reads_done a b c p d) = ground arith
  destroying_ops_forever k j s t r h (destroys i) = ground arith
  destroying_ops_forever k j s t r h (ops_done p d) = ground (arith, stuck k s r)
  destroying_ops_forever k j s t r h (ended p d) = ground arith
  destroying_ops_forever k j s t r h (completes xs ys (range_query req) o e) = h
  destroying_ops_forever k j s t r h (completes xs ys (watch_create req a b) o e) = h
  destroying_ops_forever k j s t r h (completes xs ys (watch_read a b) o e) = h
  destroying_ops_forever k j s t r h (completes xs ys (watch_cancel req a) o e) = h
