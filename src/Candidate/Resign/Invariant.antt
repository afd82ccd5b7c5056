-- ===== src/Candidate/Resign/Invariant.antt =====
-- The counters of a candidate in its methods, cut at their waits.
use gee_h.Prelude.{
  ℕ, suc, ◌+◌, ◌≡◌, pos, Bool, true, false, List, [], ◌∷◌, arith, length, Bool-cases, inl, inr,
  total-post,
}
use gee_h.Counter.{
  Counter, all_done, async_op_start, async_op_done, begin_wait, open_tracer, close_tracer,
}
use gee_h.Counter
use gee_h.Etcd.{cancel_request}
use gee_h.Candidate.{watch_cancel, Candidate, post, election_result}
use gee_h.Candidate.Balance.{on_ops, on_reads, on_cancels, IsBalanced}
use gee_h.Candidate.Resign.{
  Phase, cancelling, closing, destroying_ops, destroying_reads, destroyed, System, cancel_watches,
  resign, resign_reads, resign_close, cleanup, cleanup_reads,
}
use gee_h.Candidate.Resign.Steps.{is_idle}

abbrev pub is_cancelling : Phase → Bool
is_cancelling cancelling = true
is_cancelling _ = false

-- The destructor has begun.
abbrev pub is_ending : Phase → Bool
is_ending destroying_ops = true
is_ending destroying_reads = true
is_ending destroyed = true
is_ending _ = false

pub record Inv (k n : ℕ) (s : System) : Type 0 where
  pub balanced : IsBalanced k 0 n (is_ending s.phase) s.candidate
  pub counted : is_cancelling s.phase ≡ true → s.cancels.pending ≡ pos n
  pub quiet : is_cancelling s.phase ≡ false → n ≡ 0

record Cancels (i j n : ℕ) (shut : Bool) (r : Counter × Candidate × Bool) : Type 0 where
  finished : r.2 ≡ true
  pub balanced : IsBalanced i j n shut r.1
  pub counted : r.0.pending ≡ pos n

cancel_watches-Cancels :
    {i j n : ℕ} {shut : Bool} (ws : List ℕ) (cancels : Counter) (c : Candidate)
    → cancels.shutdown ≡ false
    → cancels.pending ≡ pos n
    → IsBalanced i j n shut c
    → Cancels i j (n + length ws) shut (cancel_watches ws cancels c)
unfolding cancel_watches
cancel_watches-Cancels [] cancels c a p v = ground arith
cancel_watches-Cancels {i} {j} {n} {shut} (w ∷ ws) cancels c a p v =
    let op = watch_cancel (cancel_request w) w in
    ground (
      arith,
      total-post on_ops c.queue op,
      total-post on_reads c.queue op,
      total-post on_cancels c.queue op,
      cancel_watches-Cancels {i = i} {j = j} {n = suc n} {shut = shut} ws (async_op_start cancels).0
          (post op c),
    )

pub resign-Inv :
    {k n : ℕ} (s : System) → is_idle s.phase ≡ true → Inv k n s → (m : ℕ) × Inv k m (resign s).0
unfolding resign Counter.new
resign-Inv {k} {n} s h v =
    let c = record s.candidate { current_watches = [] } in
    let ws = s.candidate.current_watches in
    let w = cancel_watches-Cancels {i = k} {j = 0} {n = n} {shut = false} ws Counter.new c in
    elim (Bool-cases s.candidate.stream) [
      | inl open_stream ↦ (n + length ws, ground (arith, w))
      | inr no_stream ↦ (n, ground arith)
    ]

pub resign_reads-Inv :
    {k n : ℕ} (s : System)
    → s.phase ≡ cancelling
    → all_done s.cancels ≡ true
    → Inv k n s
    → Inv k n (resign_reads s)
unfolding resign_reads all_done
resign_reads-Inv s h d v = ground arith

pub resign_close-Inv :
    {k n : ℕ} (done_ok finish_ok : Bool) (status : ℕ) (s : System)
    → s.phase ≡ closing
    → Inv k n s
    → Inv k n (resign_close done_ok finish_ok status s).0
unfolding resign_close election_result
resign_close-Inv done_ok finish_ok status s h v = ground arith

pub cleanup-Inv : {k n : ℕ} (s : System) → is_idle s.phase ≡ true → Inv k n s → Inv k n (cleanup s)
unfolding cleanup
cleanup-Inv s h v = ground arith

pub cleanup_reads-Inv :
    {k n : ℕ} (s : System) → s.phase ≡ destroying_ops → Inv k n s → Inv k n (cleanup_reads s)
unfolding cleanup_reads
cleanup_reads-Inv s h v = ground arith

pub ended-Inv :
    {k n : ℕ} (s : System)
    → s.phase ≡ destroying_reads
    → Inv k n s
    → Inv k n (record s { phase = destroyed })
ended-Inv s h v = ground arith
