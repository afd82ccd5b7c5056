-- ===== src/Session.antt =====
-- gh/detail/session_impl.hpp: a session keeps a lease alive by a cycle of a timer, a write and a read
-- of the keep-alive stream. `Lease` has the constructor, `revoke()` and the destructor.
pub mod Lease
pub mod Waits
pub mod Drain
pub mod Cycle
pub mod Renewals
pub mod Revoked
mod Scenarios
mod Tests
use gee_h.Prelude.{
  ℕ, ◌+◌, ◌*◌, ◌/◌, Bool, true, false, not, ◌&&◌, List, [], ◌∷◌, ◌++◌, Option, none, some,
  if◌then◌else◌,
}
use gee_h.Counter.{Counter, async_op_start, async_op_done, in_shutdown}
use gee_h.Counter

-- What the session has in the completion queue: a timer with its deadline, a write of the lease id,
-- or a read.
pub data KeepAlive : Type 0 where
  timer : ℕ → KeepAlive
  ka_write : ℕ → KeepAlive
  ka_read : KeepAlive

-- The members of the class; times are in milliseconds, `ka_stream` tells whether the pointer is
-- set, the timer is its deadline, and the last field is what the completion queue holds.
pub record Session : Type 0 where
  pub ka_stream : Bool
  pub lease_id : ℕ
  pub desired_ttl : ℕ
  pub actual_ttl : ℕ
  pub current_timer : Option ℕ
  pub ops : Counter
  pub reads : Counter
  pub queue : List KeepAlive

-- The constructors' initial values; the first one has the lease id 0.
unfoldable pub unopened : ℕ → ℕ → Session
unopened desired_ttl lease_id = record {
  ka_stream = false;
  lease_id = lease_id;
  desired_ttl = desired_ttl;
  actual_ttl = desired_ttl;
  current_timer = none;
  ops = Counter.new;
  reads = Counter.new;
  queue = [];
}

abbrev pub is_set : Option ℕ → Bool
is_set none = false
is_set (some deadline) = true

unfoldable pub is_active : Session → Bool
unfolding in_shutdown
is_active s = is_set s.current_timer && not (in_shutdown s.ops)

abbrev pub keep_alives_per_ttl : ℕ
keep_alives_per_ttl = 5

-- `now` is the time that the system clock gives.
unfoldable pub set_timer : ℕ → Session → Session
unfolding async_op_start
set_timer now s =
    let deadline = now + s.actual_ttl / keep_alives_per_ttl in
    let (ops, started) = async_op_start s.ops in
    if started
    then record s {
      ops = ops;
      current_timer = some deadline;
      queue = s.queue ++ timer deadline ∷ [];
    }
    else record s { ops = ops }

unfoldable pub on_timeout : Bool → Session → Session
unfolding async_op_start async_op_done
on_timeout ok s =
    let done = async_op_done s.ops in
    let (ops, started) = async_op_start done in
    if ok
    then (if started
        then record s { ops = ops; queue = s.queue ++ ka_write s.lease_id ∷ [] }
        else record s { ops = ops })
    else record s { ops = done }

unfoldable pub on_write : Bool → Session → Session
unfolding async_op_start async_op_done
on_write ok s =
    let done = record s { ops = async_op_done s.ops } in
    let (reads, started) = async_op_start s.reads in
    if ok
    then (if started
        then record done { reads = reads; queue = s.queue ++ ka_read ∷ [] }
        else record done { reads = reads })
    else done

-- The response has the time to live in seconds.
unfoldable pub on_read : Bool → ℕ → ℕ → Session → Session
unfolding async_op_done set_timer
on_read ok ttl now s =
    let done = record s { reads = async_op_done s.reads } in
    if ok then set_timer now (record done { actual_ttl = ttl * 1000 }) else done

-- What the completion of an operation brings.
pub record Answer : Type 0 where
  pub ok : Bool
  pub ttl : ℕ
  pub now : ℕ

-- The lambda that was given with the operation.
unfoldable pub respond : KeepAlive → Answer → Session → Session
unfolding on_timeout on_write on_read
respond (timer deadline) e s = on_timeout e.ok s
respond (ka_write id) e s = on_write e.ok s
respond ka_read e s = on_read e.ok e.ttl e.now s
