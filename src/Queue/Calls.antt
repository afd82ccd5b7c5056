-- ===== src/Queue/Calls.antt =====
-- Every registered operation is called once, or is still there.
use gee_h.Prelude.{
  ℕ, suc, ◌+◌, ◌≤◌, ◌≡◌, refl, Bool, true, false, List, [], ◌∷◌, Option, none, some, if◌then◌else◌,
  ◌==◌, arith,
}
use gee_h.Queue.{
  Called, Entry, Queue, new, find_op, holds, register_op, remove, unregister_op, Next, got_shutdown,
  timed_out, got_event, run_next, run, shutdown,
}

-- What the threads do with the queue: a registration, a round of the loop, or `shutdown()`.
pub data Use (A : Type 0) : Type 0 where
  registers : ℕ → A → Use A
  loops : Next → Use A
  stops : Use A

unfoldable pub used : {A : Type 0} → List (Use A) → Queue A → Queue A
unfolding register_op run shutdown
used [] q = q
used (registers t op ∷ es) q = used es (register_op t op q).0
used (loops next ∷ es) q = used es (run next q).0
used (stops ∷ es) q = used es (shutdown q)

abbrev pub times : ℕ → List ℕ → ℕ
times t [] = 0
times t (u ∷ us) = if u == t then suc (times t us) else times t us

abbrev pub times_held : {A : Type 0} → ℕ → List (Entry A) → ℕ
times_held t [] = 0
times_held t (e ∷ es) = if e.tag == t then suc (times_held t es) else times_held t es

abbrev pub times_called : ℕ → List Called → ℕ
times_called t [] = 0
times_called t (c ∷ cs) = if c.tag == t then suc (times_called t cs) else times_called t cs

abbrev pub is_some : {A : Type 0} → Option A → Bool
is_some none = false
is_some (some a) = true

module _ {A : Type 0} where
  pub times_held-remove :
      (t u : ℕ) (es : List (Entry A))
      → times_held t es ≡ (
          if u == t
          then (if holds u es then suc (times_held t (remove u es)) else 0)
          else times_held t (remove u es))
  unfolding remove
  times_held-remove t u [] = ground arith
  times_held-remove t u (e ∷ es) = ground (arith, times_held-remove t u es)

  pub times_held-holds : (t : ℕ) (es : List (Entry A)) → holds t es ≡ false → times_held t es ≡ 0
  times_held-holds t [] h = refl
  times_held-holds t (e ∷ es) h = ground (arith, times_held-holds t es)

  pub not_there :
      (t : ℕ) (es : List (Entry A))
      → find_op t es ≡ none
      → (holds t es ≡ false) × (remove t es ≡ es)
  unfolding remove
  not_there t [] h = (refl, refl)
  not_there t (e ∷ es) h = ground (arith, not_there t es)

  pub holds-find_op : (t : ℕ) (es : List (Entry A)) → holds t es ≡ is_some (find_op t es)
  holds-find_op t [] = refl
  holds-find_op t (e ∷ es) = ground (arith, holds-find_op t es)

  record IsKept (t : ℕ) (q : Queue A) : Type 0 where
    balance : times_called t q.calls + times_held t q.pending_ops ≡ times t q.accepted
    single : times_held t q.pending_ops ≤ 1

  register_op-IsKept :
      (t u : ℕ) (op : A) (q : Queue A) → IsKept t q → IsKept t (register_op u op q).0
  unfolding register_op
  register_op-IsKept t u op q v = ground (arith, times_held-holds t q.pending_ops)

  run_next-IsKept : (t : ℕ) (next : Next) (q : Queue A) → IsKept t q → IsKept t (run_next next q).0
  unfolding run_next unregister_op
  run_next-IsKept t got_shutdown q v = ground arith
  run_next-IsKept t timed_out q v = v
  run_next-IsKept t (got_event u ok) q v = ground (
    arith,
    times_held-remove t u q.pending_ops,
    not_there u q.pending_ops,
    holds-find_op u q.pending_ops,
  )

  run-IsKept : (t : ℕ) (next : Next) (q : Queue A) → IsKept t q → IsKept t (run next q).0
  unfolding run
  run-IsKept t next q v = ground (arith, run_next-IsKept t next q)

  used-IsKept : (t : ℕ) (es : List (Use A)) (q : Queue A) → IsKept t q → IsKept t (used es q)
  unfolding used shutdown
  used-IsKept t [] q v = v
  used-IsKept t (registers u op ∷ es) q v =
      used-IsKept t es (register_op u op q).0 (register_op-IsKept t u op q v)
  used-IsKept t (loops next ∷ es) q v = used-IsKept t es (run next q).0 (run-IsKept t next q v)
  used-IsKept t (stops ∷ es) q v =
      used-IsKept t es (shutdown q) (record { balance = v.balance; single = v.single })

  -- In every history of a completion queue, and for every tag, the callbacks that were run and the
  -- operations that are still held are together as many as were registered: each operation is
  -- called at most once, and is held until then. No tag is held twice.
  pub called_once :
      (t : ℕ) (es : List (Use A))
      → let q = used es new in
        (times_called t q.calls + times_held t q.pending_ops ≡ times t q.accepted)
        × (times_held t q.pending_ops ≤ 1)
  called_once t es =
      let v = used-IsKept t es new (unfold new in ground arith) in (v.balance, v.single)
