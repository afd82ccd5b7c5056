-- ===== src/Candidate/Resign/Reached.antt =====
-- The callbacks of a candidate keep the counters, so these are right in every state that it can reach.
use gee_h.Prelude.{
  ℕ, suc, ◌+◌, ◌≡◌, refl, subst, ap, ◌∙◌, pos, Bool, true, false, List, ◌∷◌, ◌++◌, arith, total,
  total-middle,
}
use gee_h.Counter.{
  Counter, all_done, async_op_start, async_op_done, begin_wait, open_tracer, close_tracer,
}
use gee_h.Counter
use gee_h.Effect.{Completion}
use gee_h.Etcd.{RangeResponse, TxnRequest, TxnResponse}
use gee_h.Candidate.{Op, range_query, watch_create, watch_read, watch_cancel, Candidate, new}
use gee_h.Candidate.Balance.{
  on_ops, on_reads, on_cancels, IsBalanced, on_range_request-IsBalanced, on_watch_create-IsBalanced,
  on_watch_read-IsBalanced,
}
use gee_h.Candidate.Campaign.Balanced.{campaign-IsBalanced, proclaim-IsBalanced}
use gee_h.Candidate.Resign.{System, Reply, callback}
use gee_h.Candidate.Resign.Steps.{
  lost, taken, at_world, Step, campaigns, proclaims, resigns, cancels_done, reads_done, destroys,
  ops_done, ended, completes, Reach, here, next,
}
use gee_h.Candidate.Resign.Invariant.{
  Inv, is_cancelling, is_ending, resign-Inv, resign_reads-Inv, resign_close-Inv, cleanup-Inv,
  cleanup_reads-Inv, ended-Inv,
}

taken-IsBalanced :
    {k n : ℕ} {shut : Bool} (xs ys : List Op) (op : Op) (c : Candidate)
    → c.queue ≡ xs ++ op ∷ ys
    → IsBalanced k 0 (on_cancels op + n) shut c
    → IsBalanced (on_ops op + k) (on_reads op) n shut (record c { queue = xs ++ ys })
taken-IsBalanced xs ys op c e v =
    let split = λ (weight : Op → ℕ). ap (total weight) e ∙ total-middle weight xs op ys in
    record {
      ops_exact = v.ops_exact ∙ ap pos (omega (arith, split on_ops));
      reads_exact = v.reads_exact ∙ ap pos (omega (arith, split on_reads));
      cancels_exact = omega (arith, split on_cancels, v.cancels_exact);
      flag_exact = v.flag_exact;
    }

renumber :
    {i j n : ℕ} {shut : Bool} {c : Candidate} (i' j' : ℕ)
    → i ≡ i'
    → j ≡ j'
    → IsBalanced i j n shut c
    → IsBalanced i' j' n shut c
renumber i' j' e f v = record {
  ops_exact = v.ops_exact ∙ ap pos (omega arith);
  reads_exact = v.reads_exact ∙ ap pos (omega arith);
  cancels_exact = v.cancels_exact;
  flag_exact = v.flag_exact;
}

-- A callback that leaves `n` operations of `resign()` in the queue.
callback-Inv :
    (k n : ℕ) (op : Op) (r : Reply) (s : System)
    → IsBalanced (on_ops op + k) (on_reads op) n (is_ending s.phase) s.candidate
    → (is_cancelling s.phase ≡ true → s.cancels.pending ≡ pos (on_cancels op + n))
    → (is_cancelling s.phase ≡ false → on_cancels op + n ≡ 0)
    → Inv (lost op r.ok + k) n (callback op r s).0
unfolding callback
callback-Inv k n (range_query req) r s v p q =
    let done : Completion RangeResponse = record {
      ok = r.ok;
      status = r.status;
      response = r.range;
    } in
    record {
      balanced =
          on_range_request-IsBalanced done s.candidate (renumber (suc k) 0 (omega arith) refl v);
      counted = λ h. p h ∙ ap pos (omega arith);
      quiet = λ h. omega (arith, q h);
    }
callback-Inv k n (watch_create req wkey wrevision) r s v p q = record {
  balanced = renumber (0 + k) 0 (omega arith) refl (
      on_watch_create-IsBalanced r.ok wkey wrevision s.candidate
        (renumber (suc k) 0 (omega arith) refl v));
  counted = λ h. p h ∙ ap pos (omega arith);
  quiet = λ h. omega (arith, q h);
}
callback-Inv k n (watch_read wkey wrevision) r s v p q = record {
  balanced = on_watch_read-IsBalanced r.ok r.watch wkey wrevision s.candidate v;
  counted = λ h. p h ∙ ap pos (omega arith);
  quiet = λ h. omega (arith, q h);
}
callback-Inv k n (watch_cancel req w) r s v p q = record {
  balanced = v;
  counted = λ h. ground (arith, p h);
  quiet = λ h. absurd (omega (arith, q h));
}

completes-Inv :
    {k n : ℕ} (xs ys : List Op) (op : Op) (r : Reply) (s : System)
    → s.candidate.queue ≡ xs ++ op ∷ ys
    → Inv k n s
    → Inv (lost op r.ok + k) (total on_cancels (xs ++ ys)) (callback op r (taken xs ys s)).0
completes-Inv {k} {n} xs ys op r s e v =
    let m = total on_cancels (xs ++ ys) in
    let here = ap (total on_cancels) e ∙ total-middle on_cancels xs op ys in
    let same : n ≡ on_cancels op + m = omega (arith, here, v.balanced.cancels_exact) in
    let u = subst (λ x. Inv k x s) same v in
    callback-Inv k m op r (taken xs ys s) (taken-IsBalanced xs ys op s.candidate e u.balanced)
      u.counted u.quiet

unshifted : {n : ℕ} {s : System} (k : ℕ) → Inv k n s → Inv (0 + k) n s
unshifted {n} {s} k v = subst (λ x. Inv x n s) (omega arith) v

pub Step-Inv :
    {W : Type 0} {call : W → TxnRequest → W × Completion TxnResponse} {j k n : ℕ} {s t : System}
    → Step call s j t
    → Inv k n s
    → (m : ℕ) × Inv (j + k) m t
Step-Inv {call} {k} {n} {s} (campaigns ok w h) v = (
  n,
  unshifted k (record {
    balanced = campaign-IsBalanced call ok (at_world s w) v.balanced;
    counted = v.counted;
    quiet = v.quiet;
  }),
)
Step-Inv {call} {k} {n} {s} (proclaims new_value w h) v = (
  n,
  unshifted k (record {
    balanced = proclaim-IsBalanced call new_value (at_world s w) v.balanced;
    counted = v.counted;
    quiet = v.quiet;
  }),
)
Step-Inv {k} {s} (resigns h) v = let (m, u) = resign-Inv s h v in (m, unshifted k u)
Step-Inv {k} {n} {s} (cancels_done h d) v = (n, unshifted k (resign_reads-Inv s h d v))
Step-Inv {k} {n} {s} (reads_done done_ok finish_ok status h d) v =
    (n, unshifted k (resign_close-Inv done_ok finish_ok status s h v))
Step-Inv {k} {n} {s} (destroys h) v = (n, unshifted k (cleanup-Inv s h v))
Step-Inv {k} {n} {s} (ops_done h d) v = (n, unshifted k (cleanup_reads-Inv s h v))
Step-Inv {k} {n} {s} (ended h d) v = (n, unshifted k (ended-Inv s h v))
Step-Inv {s} (completes xs ys op r e) v =
    (total on_cancels (xs ++ ys), completes-Inv xs ys op r s e v)

pub Reach-Inv :
    {W : Type 0} {call : W → TxnRequest → W × Completion TxnResponse} {k : ℕ} {s : System}
    → Reach call k s
    → (n : ℕ) × Inv k n s
unfolding new Counter.new
Reach-Inv (here lease_id election_name candidate_value) = (0, ground arith)
Reach-Inv (next r st) = let (n, v) = Reach-Inv r in Step-Inv st v
