-- ===== src/ActiveQueue/Moves.antt =====
-- What destroying an active queue does, before and after a move.
use gee_h.Prelude.{ℕ, ◌≡◌, refl, true, ◌∷◌, none, some, arith}
use gee_h.Queue.{Queue, Next, run}
use gee_h.Queue as Base
use gee_h.ActiveQueue.{
  Running, new, move_construct, defer_shutdown, defer_join, destroy, move_assign,
}

module _ {A : Type 0} where
  -- Whatever `AsyncNext` returns next, a loop whose queue has been shut down ends, and runs no
  -- callback.
  run-shutdown :
      (next : Next) (q : Queue A)
      → ((run next (Base.shutdown q)).0.ended ≡ true) × ((run next (Base.shutdown q)).1 ≡ none)
  unfolding run Base.shutdown
  run-shutdown next q = ground arith

  -- The destructor of an active queue joins its thread after it has shut its queue down: whatever
  -- `AsyncNext` returns to the loop next, the loop ends without another callback, so the join returns.
  pub destroy_ends :
      (q t : ℕ) (next : Next) (s : Running A)
      → let d = destroy (new q t) s in
        (d.joined ≡ t ∷ s.joined)
        × ((run next (d.queues q)).0.ended ≡ true)
        × ((run next (d.queues q)).1 ≡ none)
  unfolding destroy new defer_shutdown defer_join run Base.shutdown
  destroy_ends q t next s = ground arith

  -- A move transfers the duty: destroying what the move constructor leaves of an object and the new
  -- object, in either order, does what destroying the object would have done.
  pub destroy-move_construct :
      (q t : ℕ) (s : Running A)
      → let (moved, left) = move_construct (new q t) in
        (destroy left (destroy moved s) ≡ destroy (new q t) s)
        × (destroy moved (destroy left s) ≡ destroy (new q t) s)
  unfolding destroy move_construct new defer_shutdown defer_join
  destroy-move_construct q t s = (refl, refl)

  -- The move assignment does not release the queue on the right: when what is left on the right is
  -- destroyed, the loop of the queue that now belongs to the left ends, while its owner still uses it.
  pub destroy-move_assign :
      (q t p u : ℕ) (next : Next) (s : Running A)
      → let (lhs, rhs, d) = move_assign (new q t) (new p u) s in
        (lhs.queue ≡ some p)
        × (lhs.thread ≡ some u)
        × ((run next ((destroy rhs d).queues p)).0.ended ≡ true)
        × ((run next ((destroy rhs d).queues p)).1 ≡ none)
  unfolding destroy move_assign move_construct new defer_shutdown defer_join run Base.shutdown
  destroy-move_assign q t p u next s = ground arith
