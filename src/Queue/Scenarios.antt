-- ===== src/Queue/Scenarios.antt =====
-- gh/detail/base_completion_queue_ut.cpp on the model: the loop runs in a thread, and ends after
-- `shutdown()`, whether it waits in `AsyncNext` at that time or comes to its condition. The queue has
-- no operations.
use gee_h.Prelude.{ℕ, ◌≡◌, refl, arith, true, false, Bool, List, [], ◌∷◌, some}
use gee_h.Queue.{Queue, Next, got_shutdown, timed_out, got_event, new, run, run_next, shutdown}
use gee_h.Queue.Calls.{loops, stops, used}
use gee_h.Queue.Foreign.{rounds, called_after_foreign}

-- The thread has started; whether it ends when `AsyncNext` reports the shutdown.
unfoldable run_shutdown : Bool
unfolding used new run run_next shutdown
run_shutdown = let queue : Queue ℕ = used (stops ∷ loops got_shutdown ∷ []) new in queue.ended

-- Three timeouts come first.
unfoldable run_timeout : Bool
unfolding used new run run_next shutdown
run_timeout =
    let queue : Queue ℕ =
      used (loops timed_out ∷ loops timed_out ∷ loops timed_out ∷ stops ∷ loops timed_out ∷ [])
        new in
    queue.ended

ended_test : (run_shutdown ≡ true) × (run_timeout ≡ true)
unfolding run_shutdown run_timeout
ended_test = (refl, refl)

-- A queue that holds one operation gets a null tag, an unknown tag and a timeout.
abbrev holding : Queue ℕ
holding = record {
  pending_ops = record { tag = 3; op = 8 } ∷ [];
  shutdown = false;
  ended = false;
  accepted = 3 ∷ [];
  calls = [];
}

abbrev strays : List Next
strays = got_event 0 true ∷ got_event 9 true ∷ timed_out ∷ []

strays_test :
    let (after, called) = run (got_event 3 true) (used (rounds strays) holding) in
    (called ≡ some 8) × (after.calls ≡ record { tag = 3; ok = true } ∷ [])
strays_test = called_after_foreign 3 true 8 strays holding refl refl refl (omega arith) refl
