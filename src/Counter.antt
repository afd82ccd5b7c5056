-- ===== src/Counter.antt =====
-- gh/detail/async_op_counter.hpp and .cpp: the count of pending asynchronous operations, and the
-- tracer that counts one blocking operation. The mutex makes each method one step; the annotations
-- only go to the log. `pending_` is signed and does not wrap here.
pub mod Drain
mod Tests
use gee_h.Prelude.{ℤ, pos, increment, decrement, is_zero, Bool, true, false, if◌then◌else◌}

pub record Counter : Type 0 where
  pub pending : ℤ
  pub shutdown : Bool

unfoldable pub new : Counter
new = record { pending = pos 0; shutdown = false }

unfoldable pub in_shutdown : Counter → Bool
in_shutdown c = c.shutdown

-- `shutdown()`
unfoldable pub stop : Counter → Counter
stop c = record c { shutdown = true }

-- The new counter, and whether the operation may start.
unfoldable pub add_op : Counter → Counter × Bool
add_op c = if c.shutdown then (c, false) else (record c { pending = increment c.pending }, true)

-- The new counter, and whether `cv_.notify_one()` is called.
unfoldable pub del_op : Counter → Counter × Bool
del_op c = let n = decrement c.pending in (record c { pending = n }, is_zero n)

unfoldable pub async_op_start : Counter → Counter × Bool
unfolding add_op
async_op_start c = add_op c

unfoldable pub async_op_done : Counter → Counter
unfolding del_op
async_op_done c = (del_op c).0

-- `block_until_all_done()` up to its wait: the flag is set before the thread sleeps.
unfoldable pub begin_wait : Counter → Counter
begin_wait c = record c { shutdown = true }

-- The predicate of the wait: the call returns when it holds.
unfoldable pub all_done : Counter → Bool
all_done c = is_zero c.pending

-- The constructor of `async_op_tracer`: the counter, and `status_`.
unfoldable pub open_tracer : Counter → Counter × Bool
unfolding async_op_start
open_tracer c = async_op_start c

-- Its destructor, which does not read `status_`.
unfoldable pub close_tracer : Counter → Bool → Counter
unfolding async_op_done
close_tracer c status = async_op_done c
