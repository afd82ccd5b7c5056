-- ===== src/ActiveQueue.antt =====
-- gh/active_completion_queue.hpp and .cpp: a completion queue with the thread that runs its loop. The
-- destructor shuts the queue down and joins the thread; a move takes both over.
pub mod Moves
mod Tests
use gee_h.Prelude.{ℕ, Bool, true, false, List, [], ◌∷◌, Option, none, some, if◌then◌else◌, ◌==◌}
use gee_h.Queue.{Queue}
use gee_h.Queue as Base

-- The members: the shared queue and the thread by their numbers, and the queue that `shutdown_`
-- shuts down. `join_` points to the thread of the same object.
pub record ActiveQueue : Type 0 where
  pub queue : Option ℕ
  pub thread : Option ℕ
  pub shutdown : Option ℕ

-- The queues, and the threads that were joined.
pub record Running (A : Type 0) : Type 0 where
  pub queues : ℕ → Queue A
  pub joined : List ℕ

-- Both constructors: with a new queue and thread, or with given ones.
unfoldable pub new : ℕ → ℕ → ActiveQueue
new q t = record { queue = some q; thread = some t; shutdown = some q }

unfoldable pub is_set : ActiveQueue → Bool
is_set a = elim a.queue [ none ↦ false | some q ↦ true ]

-- The move constructor: the new object, and what is left of the old one.
unfoldable pub move_construct : ActiveQueue → ActiveQueue × ActiveQueue
move_construct rhs = (
  record { queue = rhs.queue; thread = rhs.thread; shutdown = rhs.queue },
  record { queue = none; thread = none; shutdown = none },
)

-- `~defer_shutdown()`
unfoldable pub defer_shutdown : {A : Type 0} → Option ℕ → Running A → Running A
unfolding Base.shutdown
defer_shutdown none s = s
defer_shutdown (some q) s = record s {
  queues = λ r. if q == r then Base.shutdown (s.queues r) else s.queues r;
}

-- `~defer_join()`; the call returns when the thread's loop has ended.
unfoldable pub defer_join : {A : Type 0} → Option ℕ → Running A → Running A
defer_join none s = s
defer_join (some t) s = record s { joined = t ∷ s.joined }

-- The destructor destroys the members in the reverse order of their declaration.
unfoldable pub destroy : {A : Type 0} → ActiveQueue → Running A → Running A
unfolding defer_shutdown defer_join
destroy a s = defer_join a.thread (defer_shutdown a.shutdown s)

-- The move assignment: the old queue and thread go to `tmp`, which is destroyed at the end. The
-- result is the two objects, and the queues and threads.
unfoldable pub move_assign :
    {A : Type 0} → ActiveQueue → ActiveQueue → Running A → ActiveQueue × ActiveQueue × Running A
unfolding move_construct destroy
move_assign lhs rhs s =
    let (tmp, left) = move_construct lhs in
    (
      record { queue = rhs.queue; thread = rhs.thread; shutdown = rhs.queue },
      record { queue = none; thread = none; shutdown = rhs.shutdown },
      destroy tmp s,
    )
