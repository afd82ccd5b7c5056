-- ===== src/ActiveQueue/Tests.antt =====
-- Two active queues: one is destroyed, or moved, or assigned to the other.
use gee_h.Prelude.{ℕ, ◌≡◌, refl, Bool, true, false, List, [], ◌∷◌}
use gee_h.ActiveQueue.{
  ActiveQueue, Running, new, is_set, move_construct, move_assign, destroy, defer_shutdown,
  defer_join,
}

-- Every queue holds operation 9 under the tag 4.
abbrev both : Running ℕ
both = record {
  queues = λ q. record {
    pending_ops = record { tag = 4; op = 9 } ∷ [];
    shutdown = false;
    ended = false;
    accepted = 4 ∷ [];
    calls = [];
  };
  joined = [];
}

-- `TEST(active_completion_queue, basic)`: what the two objects hold after a move construction.
unfoldable basic_moved : Bool × Bool
unfolding is_set move_construct new
basic_moved = let (copy, orig) = move_construct (new 0 1) in (is_set orig, is_set copy)

-- Both objects before and after a move assignment, and the threads that it joins.
unfoldable basic_assigned : (Bool × Bool) × (Bool × Bool) × List ℕ
unfolding is_set new move_assign move_construct destroy defer_shutdown defer_join
basic_assigned =
    let orig : ActiveQueue = new 2 3 in
    let copy : ActiveQueue = new 0 1 in
    let (assigned, left, d) = move_assign copy orig both in
    ((is_set orig, is_set copy), (is_set left, is_set assigned), d.joined)

-- An object that takes over a queue and a thread, and joins the thread at its end.
unfoldable basic_owner : Bool × List ℕ
unfolding is_set new destroy defer_shutdown defer_join
basic_owner = let owner : ActiveQueue = new 4 5 in (is_set owner, (destroy owner both).joined)

basic_test :
    (basic_moved ≡ (false, true))
    × (basic_assigned ≡ ((true, true), (false, true), 1 ∷ []))
    × (basic_owner ≡ (true, 5 ∷ []))
unfolding basic_moved basic_assigned basic_owner
basic_test = (refl, refl, refl)
