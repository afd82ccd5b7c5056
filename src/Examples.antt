-- ===== src/Examples.antt =====
-- examples/join_election.cpp and examples/observe_election.cpp: programs that take part in an election,
-- or watch one, until they are interrupted. The queue's thread changes the objects while the main
-- thread sleeps: `background n` is what it does in the n-th sleep, and `interrupted n` the flag of the
-- signal handler behind it. What goes to the terminal is a list of texts.
pub mod Join
pub mod Observe
pub mod Endings
mod Tests
use gee_h.Prelude.{ℕ, zero, suc, Bool, Option, none, some, if◌then◌else◌}

-- A loop that sleeps until its test holds behind a sleep, on fuel: the number of the next sleep, and the
-- state.
module _ {S : Type 0} (background : ℕ → S → S) (test : ℕ → S → Bool) where
  unfoldable pub sleep_until : ℕ → ℕ → S → Option (ℕ × S)
  sleep_until zero n s = none
  sleep_until (suc fuel) n s =
      let t = background n s in
      let rest = sleep_until fuel (suc n) t in if test n t then some (suc n, t) else rest
