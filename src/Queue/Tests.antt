-- ===== src/Queue/Tests.antt =====
-- A queue on which an operation is registered, reported twice, and registered again.
use gee_h.Prelude.{codes, ◌↔◌, some, none, ℕ, ◌+◌, ◌≤◌, ◌≡◌, refl, true, false, List, [], ◌∷◌}
use gee_h.Queue.{new, register_op, run, run_next, unregister_op, remove, got_event, shutdown}
use gee_h.Queue.Destroy.{destroy, destroy_silent}
use gee_h.Queue.Calls.{
  Use, registers, loops, stops, used, times, times_held, times_called, called_once,
}

abbrev uses : List (Use ℕ)
uses =
    registers 4 9
    ∷ loops (got_event 4 true)
    ∷ loops (got_event 4 false)
    ∷ registers 4 9
    ∷ stops
    ∷ []

called_test : times_called 4 (used uses new).calls ≡ 1
unfolding used new register_op run run_next unregister_op remove shutdown
called_test = refl

called_once_example :
    (times_called 4 (used uses new).calls + times_held 4 (used uses new).pending_ops
      ≡ times 4 (used uses new).accepted)
    × (times_held 4 (used uses new).pending_ops ≤ 1)
called_once_example = called_once 4 uses

abbrev op_name : ℕ → List ℕ
op_name n = codes "op"

abandoned_test :
    destroy op_name (used uses new)
    ≡ some (codes " completion queue deleted while holding 1 pending operations: op\n")
unfolding destroy used new register_op run run_next unregister_op remove shutdown
abandoned_test = refl

destroy_silent_example :
    ((t : ℕ) → times_called t (used uses new).calls ≡ times t (used uses new).accepted)
    ↔ (destroy op_name (used uses new) ≡ none)
destroy_silent_example = destroy_silent op_name uses
