-- ===== src/Session/Scenarios.antt =====
-- gh/detail/session_impl_ut.cpp on the model: the stages of its tests, and their expectations.
use gee_h.Prelude.{ℕ, ◌≡◌, refl, true, false, List, [], ◌∷◌}
use gee_h.Counter.{all_done, open_tracer, close_tracer, in_shutdown}
use gee_h.Counter
use gee_h.Effect.{Outcome, returns, throws, lease_rejected, Completion}
use gee_h.Etcd.{LeaseGrantRequest, LeaseGrantResponse}
use gee_h.Session.{
  Session, unopened, is_active, set_timer, on_timeout, on_write, on_read, Answer, respond,
}
use gee_h.Session.Lease.{
  grant_request, granted, open_session, preamble, shutdown_reads, shutdown_ops, Owner, open_stage,
  revoke, revoke_close, close_stream, destroy,
}
use gee_h.Session.Drain.{answered}

-- The mock of the lease request: its error, the lease 1000, and 42 seconds to live.
abbrev grants : List ℕ → LeaseGrantRequest → Completion LeaseGrantResponse
grants error req = record {
  ok = true;
  status = 0;
  response = record { id = 1000; ttl = 42; error = error };
}

abbrev fired : ℕ → Answer
fired now = record { ok = true; ttl = 24; now = now }

abbrev cancelled : Answer
cancelled = record { ok = false; ttl = 0; now = 0 }

-- The constructor with 5000 ms at time 0, and the request that it makes.
unfoldable constructed : List ℕ → Session × Outcome (Unit {0})
unfolding preamble open_session granted grant_request set_timer unopened Counter.new open_tracer
    close_tracer shutdown_reads shutdown_ops in_shutdown
constructed error = preamble (grants error) true 0 (unopened 5000 0)

request_test : grant_request (unopened 5000 0) ≡ record { id = 0; ttl = 5 }
unfolding grant_request unopened
request_test = refl

-- `TEST(basic)`: the destructor, whose `try_cancel_on` completes the timer.
unfoldable basic : Session
unfolding constructed destroy shutdown_reads answered respond on_timeout
basic =
    answered cancelled
      (destroy (record { session = (constructed []).0; stage = open_stage })).session

basic_test :
    ((constructed []).0.lease_id ≡ 1000)
    × ((constructed []).0.actual_ttl ≡ 42000)
    × (basic.queue ≡ [])
    × (all_done basic.reads ≡ true)
unfolding constructed basic all_done
basic_test = (refl, refl, refl, refl)

-- `TEST(lease_error)`
abbrev something_broke : List ℕ
something_broke = b's' ∷ b'o' ∷ b'm' ∷ b'e' ∷ b't' ∷ b'h' ∷ b'i' ∷ b'n' ∷ b'g' ∷ []

unfoldable lease_error : Session × Outcome (Unit {0})
unfolding constructed
lease_error = constructed something_broke

lease_error_test : (lease_error.1 ≡ throws lease_rejected) × (lease_error.0.queue ≡ [])
unfolding lease_error
lease_error_test = (refl, refl)

-- `TEST(full_lifecycle)`: two cycles of timer, write and read.
unfoldable cycle : Session → Session
unfolding answered respond on_timeout on_write on_read set_timer
cycle s = answered (fired 100) (answered (fired 100) (answered (fired 100) s))

unfoldable full_cycles : Session
unfolding constructed cycle
full_cycles = cycle (cycle (constructed []).0)

-- `revoke()`, whose mock cancels the timer before it answers.
unfoldable revoked : Session → Owner × Outcome (Unit {0})
unfolding answered respond on_timeout revoke revoke_close close_stream open_tracer close_tracer
    in_shutdown
revoked s =
    let (o, r) =
      revoke (record { ok = true; status = 0; response = tt })
        (record { session = answered cancelled s; stage = open_stage }) in
    revoke_close true true 0 o

unfoldable full_lifecycle : Owner × Outcome (Unit {0})
unfolding full_cycles revoked
full_lifecycle = revoked full_cycles

full_cycles_test : (full_cycles.actual_ttl ≡ 24000) × (is_active full_cycles ≡ true)
unfolding full_cycles is_active
full_cycles_test = (refl, refl)

full_lifecycle_test :
    (full_lifecycle.1 ≡ returns tt)
    × (is_active full_lifecycle.0.session ≡ false)
    × (all_done full_lifecycle.0.session.ops ≡ true)
unfolding full_lifecycle is_active all_done
full_lifecycle_test = (refl, refl, refl)

-- `TEST(race_timer)`: `revoke()` before any cycle.
unfoldable race_timer : Owner × Outcome (Unit {0})
unfolding constructed revoked
race_timer = revoked (constructed []).0

race_timer_test :
    (race_timer.1 ≡ returns tt)
    × (is_active race_timer.0.session ≡ false)
    × (race_timer.0.session.queue ≡ [])
unfolding race_timer is_active
race_timer_test = (refl, refl, refl)
