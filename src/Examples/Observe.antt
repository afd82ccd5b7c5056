-- ===== src/Examples/Observe.antt =====
-- `main()` of examples/observe_election.cpp.
use gee_h.Prelude.{codes, ℕ, suc, Bool, List, [], ◌∷◌, ◌++◌, Option, none, some, if◌then◌else◌}
use gee_h.Effect.{Outcome, returns, throws}
use gee_h.Candidate.Query.{is_empty}
use gee_h.Elections.{WatchElection, watch_election, subscribe, startup, unsubscribe, shutdown}
use gee_h.Examples.{sleep_until}

-- The line that `subscriber` prints, given the key and the value of the leader.
unfoldable pub subscriber : List ℕ → List ℕ → List ℕ
subscriber key value =
    if is_empty key
    then codes "no current leader"
    else codes "current leader is " ++ key ++ codes ", with value=" ++ value

-- The number by which the observer knows it.
abbrev pub subscriber_number : ℕ
subscriber_number = 0

-- The observer at the end, and the exit status.
pub record Observed : Type 0 where
  pub observer : WatchElection
  pub exit_status : ℕ

module _ (background : ℕ → WatchElection → WatchElection) (interrupted : ℕ → Bool) where
  -- What follows the loop.
  unfoldable pub leave : ℕ → Option (ℕ × WatchElection) → Option Observed
  unfolding unsubscribe shutdown
  leave token none = none
  leave token (some (n, w)) =
      let (after, r) = shutdown (unsubscribe token w) in
      elim r [
        | throws e ↦ some (record { observer = after; exit_status = 1 })
        | returns _ ↦ some (record { observer = after; exit_status = 0 })
      ]

  -- The loop; the flag is tested before a sleep, so `interrupted 0` is tested with no sleep before it.
  unfoldable pub watch : ℕ → ℕ → WatchElection × Outcome (Unit {0}) → Option Observed
  unfolding sleep_until leave
  watch fuel token (w, throws e) = some (record { observer = w; exit_status = 1 })
  watch fuel token (w, returns _) =
      let slept = sleep_until background (λ k t. interrupted (suc k)) fuel 0 w in
      if interrupted 0 then leave token (some (0, w)) else leave token slept

  -- `ok` is how the creation of the stream ends.
  unfoldable pub run : ℕ → Bool → List ℕ → Option Observed
  unfolding watch_election subscribe startup watch
  run fuel ok election_name =
      let (w, token) = subscribe subscriber_number (watch_election election_name) in
      watch fuel token (startup ok w)

  -- The arguments behind the program's name: the election, and maybe an address; none if the program
  -- ends at once, with the exit status 1.
  unfoldable pub main : ℕ → Bool → List (List ℕ) → Option (Option Observed)
  unfolding run
  main fuel ok (election_name ∷ []) = some (run fuel ok election_name)
  main fuel ok (election_name ∷ address ∷ []) = some (run fuel ok election_name)
  main fuel ok _ = none
