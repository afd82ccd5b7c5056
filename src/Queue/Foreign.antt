-- ===== src/Queue/Foreign.antt =====
-- Events that are not of an operation of the queue.
use gee_h.Prelude.{
  ℕ, ◌≡◌, ◌≢◌, refl, ap, ◌∙◌, Bool, true, false, not, ◌&&◌, ◌||◌, List, [], ◌∷◌, none, some, ◌==◌,
  arith, Bool-cases, inl, inr,
}
use gee_h.Queue.{
  Entry, Queue, find_op, holds, unregister_op, Next, got_shutdown, timed_out, got_event, run_next,
  run,
}
use gee_h.Queue.Calls.{Use, loops, used, not_there}

module _ {A : Type 0} where
  -- A timeout, a null tag, or a tag that the queue does not know.
  abbrev pub foreign : List (Entry A) → Next → Bool
  foreign es got_shutdown = false
  foreign es timed_out = true
  foreign es (got_event t ok) = t == 0 || not (holds t es)

  abbrev pub all_foreign : List (Entry A) → List Next → Bool
  all_foreign es [] = true
  all_foreign es (n ∷ ns) = foreign es n && all_foreign es ns

  abbrev pub rounds : List Next → List (Use A)
  rounds [] = []
  rounds (n ∷ ns) = loops n ∷ rounds ns

  find_op-none : (t : ℕ) (es : List (Entry A)) → holds t es ≡ false → find_op t es ≡ none
  find_op-none t [] h = refl
  find_op-none t (e ∷ es) h = ground (arith, find_op-none t es)

  run-foreign :
      (n : Next) (q : Queue A)
      → q.ended ≡ false
      → q.shutdown ≡ false
      → foreign q.pending_ops n ≡ true
      → run n q ≡ (q, none)
  unfolding run run_next unregister_op
  run-foreign got_shutdown q e s h = absurd (ground arith)
  run-foreign timed_out q e s h = simp (e, s) refl
  run-foreign (got_event t ok) q e s h = elim (Bool-cases (t == 0)) [
    | inl null ↦ ground arith
    | inr nonzero ↦
        let unknown : holds t q.pending_ops ≡ false = ground arith in
        let nothing = find_op-none t q.pending_ops unknown in
        simp (e, s, nonzero, nothing, (not_there t q.pending_ops nothing).1) (ground arith)
  ]

  used-foreign :
      (ns : List Next) (q : Queue A)
      → q.ended ≡ false
      → q.shutdown ≡ false
      → all_foreign q.pending_ops ns ≡ true
      → used (rounds ns) q ≡ q
  unfolding used
  used-foreign [] q e s h = refl
  used-foreign (n ∷ ns) q e s h =
      ap (λ r. used (rounds ns) r.0) (run-foreign n q e s (ground arith))
      ∙ used-foreign ns q e s (ground arith)

  -- However many timeouts, null tags and unknown tags the loop gets first, the next event of an
  -- operation that the queue holds makes the loop call that operation, and nothing else is called.
  pub called_after_foreign :
      (t : ℕ) (ok : Bool) (op : A) (ns : List Next) (q : Queue A)
      → q.ended ≡ false
      → q.shutdown ≡ false
      → all_foreign q.pending_ops ns ≡ true
      → t ≢ 0
      → find_op t q.pending_ops ≡ some op
      → let (after, called) = run (got_event t ok) (used (rounds ns) q) in
        (called ≡ some op) × (after.calls ≡ record { tag = t; ok = ok } ∷ q.calls)
  unfolding run run_next unregister_op
  called_after_foreign t ok op ns q e s h nonzero there =
      rw (used-foreign ns q e s h) (simp (e, s, there) (ground arith))
