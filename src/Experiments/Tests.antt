-- ===== src/Experiments/Tests.antt =====
-- A cluster of three members, of which the second one leads, and which accepts every call.
use gee_h.Prelude.{
  codes, ℕ, suc, ◌≡◌, refl, Bool, true, List, [], ◌∷◌, if◌then◌else◌, bytes_eq, none,
}
use gee_h.Errors.{Status}
use gee_h.Experiments.{Reply, Stubs}
use gee_h.Experiments.Cluster.{ClusterClient, pick_channel, find_leader}
use gee_h.Experiments.Channels.{Picked, pick_channel-Picked}
use gee_h.Experiments.Failure.{main}
use gee_h.Experiments.Healthy.{main-fails}

abbrev status_ok : Status
status_ok = record { error_code = 0; error_message = [] }

abbrev fine : {R : Type 0} → R → Reply R
fine r = record { status = status_ok; response = r }

abbrev first : List ℕ
first = codes "first:2379"

abbrev second : List ℕ
second = codes "second:2379"

abbrev third : List ℕ
third = codes "third:2379"

abbrev member_id : List ℕ → ℕ
member_id t = if bytes_eq t second then 2 else 1

-- The state counts the calls.
abbrev stubs : Stubs ℕ
stubs = record {
  is_ready = λ t w. true;
  maintenance_status = λ t w. (suc w, fine (record { leader = 2; member_id = member_id t }));
  lease_grant = λ t req w. (suc w, fine (record { id = 7; ttl = 30; error = [] }));
  txn = λ t req w. (suc w, fine (record { revision = 5; succeeded = true; responses = [] }));
  put = λ t req w. (suc w, fine tt);
  delete_range = λ t key w. (suc w, fine 6);
}

abbrev driver : ℕ → ℕ → ℕ × Bool
driver n w = (w, true)

abbrev client : ClusterClient ℕ
client = record { targets = first ∷ second ∷ third ∷ []; current_channel = none; world = 0 }

-- Two members are asked.
pick_channel_test : (pick_channel stubs client).0.world ≡ 2
unfolding pick_channel find_leader
pick_channel_test = refl

pick_channel-Picked_example : Picked stubs client (pick_channel stubs client)
pick_channel-Picked_example = pick_channel-Picked stubs client

main-fails_example : (main stubs driver (codes "test" ∷ first ∷ second ∷ []) 0).1 ≡ 1
main-fails_example =
    main-fails stubs (λ t w. refl) (λ t req w. refl) driver (codes "test" ∷ first ∷ second ∷ []) 0
