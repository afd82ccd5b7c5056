-- ===== src/Examples/Join.antt =====
-- `main()` of examples/join_election.cpp.
use gee_h.Prelude.{codes, ℕ, zero, suc, Bool, true, false, ◌||◌, List, [], ◌∷◌, Option, none, some}
use gee_h.Effect.{Outcome, returns, throws, runtime_error, Exception, Completion}
use gee_h.Etcd.{LeaseGrantRequest, LeaseGrantResponse, TxnRequest, TxnResponse}
use gee_h.Elections.{LeaderElection, Site, leader_election, campaign, resign}
use gee_h.Examples.{sleep_until}

-- How the program ends: the exit status, and the texts that it printed.
pub record Ended : Type 0 where
  pub exit_status : ℕ
  pub printed : List (List ℕ)

abbrev pub won_text : List ℕ
won_text = codes "candidate has won the election... wait for interrupt"

-- The handlers of `main()` print the exception, whose text is left out.
abbrev pub raised : Exception → Ended
raised e = record { exit_status = 1; printed = [] }

-- `fut.wait_for(...) == ready` and `fut.get()`, by the promise's value.
abbrev pub result_of : {W : Type 0} → Site W → Option Bool
result_of s = s.election.candidate.candidate.promise.value

abbrev pub is_ready : Option Bool → Bool
is_ready none = false
is_ready (some b) = true

-- The program, on its parameters: how the lease is granted and the queue's calls end, the server, and
-- what happens in the sleeps. None means that the fuel was used up before it ended.
module _ {W : Type 0} (call : W → TxnRequest → W × Completion TxnResponse)
    (background : ℕ → Site W → Site W) (interrupted : ℕ → Bool)
    (completion : Completion (Unit {0})) where
  -- `resign()` up to its first wait.
  unfoldable pub leave : List (List ℕ) → Site W → Ended
  unfolding resign
  leave texts s =
      let (l, r) = resign completion s.election in
      elim r [ throws e ↦ raised e | returns _ ↦ record { exit_status = 0; printed = texts } ]

  abbrev pub leave_maybe : List (List ℕ) → Option (ℕ × Site W) → Option Ended
  leave_maybe texts none = none
  leave_maybe texts (some (n, s)) = some (leave texts s)

  -- The second loop waits for the interrupt; its test comes before the sleep.
  unfoldable pub idle : ℕ → ℕ → List (List ℕ) → Site W → Bool → Option Ended
  unfolding sleep_until leave
  idle fuel n texts s true = some (leave texts s)
  idle fuel n texts s false =
      leave_maybe texts (sleep_until background (λ k t. interrupted k) fuel n s)

  -- The test behind the first loop.
  unfoldable pub decided : ℕ → ℕ → Site W → Bool → Option Bool → Option Ended
  unfolding idle
  decided fuel n s flag none = idle fuel n [] s flag
  decided fuel n s flag (some true) = idle fuel n (won_text ∷ []) s flag
  decided fuel n s flag (some false) = some (raised (runtime_error (codes "election aborted")))

  abbrev pub decided_maybe : ℕ → Option (ℕ × Site W) → Option Ended
  decided_maybe fuel none = none
  decided_maybe fuel (some (zero, s)) = none
  decided_maybe fuel (some (suc n, s)) = decided fuel (suc n) s (interrupted n) (result_of s)

  -- What follows `campaign()`: the first loop ends when the future is ready, or at the interrupt.
  unfoldable pub await_result : ℕ → Site W × Outcome (Unit {0}) → Option Ended
  unfolding sleep_until decided
  await_result fuel (s, throws e) = some (raised e)
  await_result fuel (s, returns _) =
      decided_maybe fuel
        (sleep_until background (λ k t. interrupted k || is_ready (result_of t)) fuel 0 s)

  unfoldable pub take_part : ℕ → Bool → Site W → Option Ended
  unfolding campaign await_result
  take_part fuel ok s = await_result fuel (campaign call ok s)

  abbrev pub with_election : ℕ → Bool → W → Outcome LeaderElection → Option Ended
  with_election fuel ok w (throws e) = some (raised e)
  with_election fuel ok w (returns l) = take_part fuel ok (record { election = l; server = w })

  module _ (grant : LeaseGrantRequest → Completion LeaseGrantResponse)
      (session_ok campaign_ok : Bool) (now : ℕ) where
    -- The arguments behind the program's name: the election, the value, and maybe an address.
    unfoldable pub main : ℕ → List (List ℕ) → W → Option Ended
    unfolding take_part leader_election
    main fuel (election_name ∷ value ∷ []) w =
        with_election fuel campaign_ok w
          (leader_election grant session_ok now election_name value 5000 0)
    main fuel (election_name ∷ value ∷ address ∷ []) w =
        with_election fuel campaign_ok w
          (leader_election grant session_ok now election_name value 5000 0)
    main fuel _ w = some (record { exit_status = 1; printed = [] })
