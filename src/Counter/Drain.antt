-- ===== src/Counter/Drain.antt =====
-- The threads that share a counter: accepted operations that complete, calls of `async_op_done()`
-- without an accepted operation, and one thread that blocks until all are done.
use gee_h.Prelude.{
  ℕ, zero, suc, ◌≡◌, refl, sym, ap, ◌∙◌, ℤ, pos, Bool, true, false, List, [], ◌∷◌, arith, ◌==◌, ◌+◌,
  negsuc, increment, decrement, is_zero,
}
use gee_h.Counter.{
  Counter, new, stop, async_op_start, async_op_done, del_op, begin_wait, all_done, open_tracer,
  close_tracer,
}

-- The calls of the threads that share a counter, in the order of the mutex. Besides `finish`, which
-- an operation in flight calls, `stray` is a call of `async_op_done()` for an operation that was not
-- accepted, as the destructor of a refused tracer makes.
pub data Call : Type 0 where
  start finish stray stops waits : Call

-- The counter, the number of accepted operations that have not completed, and that of the calls of
-- `async_op_done()` without an operation.
pub record Shared : Type 0 where
  pub counter : Counter
  pub in_flight : ℕ
  pub strays : ℕ

abbrev started : Shared → Counter × Bool → Shared
started s (c, true) = record s { counter = c; in_flight = suc s.in_flight }
started s (c, false) = record s { counter = c }

-- When nothing is in flight there is no operation that completes.
abbrev finished : ℕ → Shared → Shared
finished zero s = record s { counter = async_op_done s.counter; strays = suc s.strays }
finished (suc n) s = record s { counter = async_op_done s.counter; in_flight = n }

unfoldable pub after : Shared → Call → Shared
unfolding async_op_start async_op_done stop begin_wait
after s start = started s (async_op_start s.counter)
after s finish = finished s.in_flight s
after s stray = record s { counter = async_op_done s.counter; strays = suc s.strays }
after s stops = record s { counter = stop s.counter }
after s waits = record s { counter = begin_wait s.counter }

unfoldable pub run : Shared → List Call → Shared
run s [] = s
run s (e ∷ es) = run (after s e) es

-- n - k
abbrev difference : ℕ → ℕ → ℤ
difference n zero = pos n
difference n (suc k) = decrement (difference n k)

decrement-increment : (z : ℤ) → decrement (increment z) ≡ z
decrement-increment (pos n) = refl
decrement-increment (negsuc zero) = refl
decrement-increment (negsuc (suc n)) = refl

pub increment-decrement : (z : ℤ) → increment (decrement z) ≡ z
increment-decrement (pos zero) = refl
increment-decrement (pos (suc n)) = refl
increment-decrement (negsuc n) = refl

difference-suc : (n k : ℕ) → difference (suc n) k ≡ increment (difference n k)
difference-suc n zero = refl
difference-suc n (suc k) =
    ap decrement (difference-suc n k)
    ∙ decrement-increment (difference n k)
    ∙ sym (increment-decrement (difference n k))

difference_both : (n k : ℕ) → difference (suc n) (suc k) ≡ difference n k
difference_both n k = ap decrement (difference-suc n k) ∙ decrement-increment (difference n k)

difference_below : (k : ℕ) → difference zero (suc k) ≡ negsuc k
difference_below zero = refl
difference_below (suc k) = ap decrement (difference_below k)

is_zero-difference : (n k : ℕ) → is_zero (difference n k) ≡ (n == k)
is_zero-difference zero zero = refl
is_zero-difference (suc n) zero = ground arith
is_zero-difference zero (suc k) = ap is_zero (difference_below k) ∙ ground arith
is_zero-difference (suc n) (suc k) =
    ap is_zero (difference_both n k) ∙ is_zero-difference n k ∙ ground arith

abbrev pub IsExact : Shared → Type 0
IsExact s = s.counter.pending ≡ difference s.in_flight s.strays

started-IsExact :
    (s : Shared) (shut : Bool) → s.counter.shutdown ≡ shut → IsExact s → IsExact (after s start)
unfolding after
started-IsExact s true h v = simp h v
started-IsExact s false h v = simp h (ap increment v ∙ sym (difference-suc s.in_flight s.strays))

finished-IsExact : (n : ℕ) (s : Shared) → s.in_flight ≡ n → IsExact s → IsExact (finished n s)
unfolding async_op_done
finished-IsExact zero s h v = ap decrement v
finished-IsExact (suc n) s h v =
    ap decrement (v ∙ ap (λ m. difference m s.strays) h) ∙ difference_both n s.strays

after-IsExact : (s : Shared) (e : Call) → IsExact s → IsExact (after s e)
unfolding after
after-IsExact s start v = started-IsExact s s.counter.shutdown refl v
after-IsExact s finish v = finished-IsExact s.in_flight s refl v
after-IsExact s stray v = ap decrement v
after-IsExact s stops v = v
after-IsExact s waits v = v

pub run-IsExact : (s : Shared) (es : List Call) → IsExact s → IsExact (run s es)
unfolding run
run-IsExact s [] v = v
run-IsExact s (e ∷ es) v = run-IsExact (after s e) es (after-IsExact s e v)

IsExact-all_done : (s : Shared) → IsExact s → all_done s.counter ≡ (s.in_flight == s.strays)
unfolding all_done
IsExact-all_done s v = ap is_zero v ∙ is_zero-difference s.in_flight s.strays

unfoldable pub initial : Shared
initial = record { counter = new; in_flight = 0; strays = 0 }

-- After any calls on a new counter the wait's predicate holds exactly when as many accepted
-- operations are still in flight as there were calls of `async_op_done()` without one.
pub all_done-run :
    (es : List Call)
    → all_done (run initial es).counter ≡ ((run initial es).in_flight == (run initial es).strays)
unfolding initial new
all_done-run es = IsExact-all_done (run initial es) (run-IsExact initial es refl)

-- The state in which `block_until_all_done` returns.
pub record IsDrained (s : Shared) : Type 0 where
  pub flagged : s.counter.shutdown ≡ true
  pub empty : s.in_flight ≡ 0

finished-IsDrained : (n : ℕ) (s : Shared) → s.in_flight ≡ n → IsDrained s → IsDrained (finished n s)
unfolding async_op_done
finished-IsDrained zero s h v = record { flagged = v.flagged; empty = v.empty }
finished-IsDrained (suc n) s h v = absurd (ground (arith, v.empty))

after-IsDrained : (s : Shared) (e : Call) → IsDrained s → IsDrained (after s e)
unfolding after
after-IsDrained s start v = ground arith
after-IsDrained s finish v = finished-IsDrained s.in_flight s refl v
after-IsDrained s stray v = ground arith
after-IsDrained s stops v = ground arith
after-IsDrained s waits v = ground arith

run-IsDrained : (s : Shared) (es : List Call) → IsDrained s → IsDrained (run s es)
unfolding run
run-IsDrained s [] v = v
run-IsDrained s (e ∷ es) v = run-IsDrained (after s e) es (after-IsDrained s e v)

-- Let the count be exact and free of calls of `async_op_done()` without an operation. Once a wait on
-- the counter has returned, whatever the threads call afterwards starts no operation, so none is in
-- flight. A later wait returns at once exactly if none of those calls was such an `async_op_done()`.
pub drained_forever :
    (s : Shared) (es : List Call)
    → IsExact s
    → s.strays ≡ 0
    → all_done s.counter ≡ true
    → let t = run (after s waits) es in (t.in_flight ≡ 0) × (all_done t.counter ≡ (t.strays == 0))
unfolding after
drained_forever s es x n h =
    let none_left : s.in_flight ≡ 0 = ground (arith, IsExact-all_done s x) in
    let d = run-IsDrained (after s waits) es (record { flagged = refl; empty = none_left }) in
    let e = IsExact-all_done (run (after s waits) es) (run-IsExact (after s waits) es x) in
    (d.empty, ground (arith, e, d.empty))

-- The counter after `k` completions.
unfoldable pub dones : ℕ → Counter → Counter
unfolding async_op_done
dones zero c = c
dones (suc k) c = dones k (async_op_done c)

pub pending-dones : (k m : ℕ) (c : Counter) → c.pending ≡ pos (k + m) → (dones k c).pending ≡ pos m
unfolding dones
pending-dones zero m c h = ground arith
pending-dones (suc k) m c h = pending-dones k m (async_op_done c) (ground arith)

-- With `k + j + 1` operations pending the completion after the first `k` wakes the waiting thread
-- exactly when it is the last one, and exactly then the wait's predicate holds.
pub del_op-dones :
    (c : Counter) (k j : ℕ)
    → c.pending ≡ pos (k + suc j)
    → ((del_op (dones k c)).1 ≡ (j == 0)) × (all_done (del_op (dones k c)).0 ≡ (j == 0))
unfolding del_op all_done
del_op-dones c k j h = let p = pending-dones k (suc j) c h in (ground arith, ground arith)

abbrev pub traced : Counter → Counter
traced c = close_tracer (open_tracer c).0 (open_tracer c).1

-- While the counter accepts operations, a tracer leaves it as it was.
pub traced-eq : (c : Counter) (n : ℕ) → c.shutdown ≡ false → c.pending ≡ pos n → traced c ≡ c
unfolding close_tracer open_tracer
traced-eq c n r h = ground arith

dones_negative : (k n : ℕ) (c : Counter) → c.pending ≡ negsuc n → all_done (dones k c) ≡ false
unfolding dones all_done
dones_negative zero n c h = ground arith
dones_negative (suc k) n c h = dones_negative k (suc n) (async_op_done c) (ground arith)

-- A tracer that is created on a counter in shutdown is not counted at its start, but is at its end:
-- with `m + 1` operations pending, the wait's predicate holds after `m` completions, while one of
-- the operations is still in flight.
pub traced_early :
    (c : Counter) (m : ℕ)
    → c.shutdown ≡ true
    → c.pending ≡ pos (suc m)
    → all_done (dones m (traced c)) ≡ true
unfolding close_tracer open_tracer all_done
traced_early c m r h = ground (arith, pending-dones m 0 (traced c))

-- And with none pending the predicate does not hold again, however many operations complete.
pub traced_stuck :
    (c : Counter) (k : ℕ)
    → c.shutdown ≡ true
    → c.pending ≡ pos 0
    → all_done (dones k (traced c)) ≡ false
unfolding close_tracer open_tracer
traced_stuck c k r h = dones_negative k 0 (traced c) (ground arith)
