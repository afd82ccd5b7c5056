-- ===== src/Candidate/Tests/Elections.antt =====
-- Two candidates of one election on one server: the first leads, the second watches it.
use mathlib.Core.List.{Memᴰ}
use gee_h.Prelude.{
  ℕ, ◌≤◌, ◌≡◌, ◌≢◌, refl, ap, true, Option, none, List, [], ◌∷◌, arith, length, has_prefix,
}
use gee_h.Counter
use gee_h.Etcd.{KeyValue, RangeRequest, RangeResponse}
use gee_h.Candidate.{Candidate, new, election_result}
use gee_h.Candidate.Key.{election_prefix, candidate_key, candidate_key-ne, length-candidate_key}
use gee_h.PrefixEnd.{prefix_end}
use gee_h.Candidate.Campaign.Node.{node}
use gee_h.Candidate.Query.{predecessor_request, on_range_request, insert_key}
use gee_h.Candidate.Election.{
  EtcdRange, answer, elected_oldest, immediate_predecessor, watches_predecessor,
}
use gee_h.Candidate.Succession.{oldest_elected}
use gee_h.Candidate.History.{EtcdHistory}
use gee_h.Candidate.Protocol.{put, Held, opens, goes, enters, answers, moves}
use gee_h.Candidate.Protocol.Leaders.{single_leader, elected-oldest_now}
use gee_h.Candidate.Tests.Server.{all_keys, range, range-EtcdRange}

abbrev name : List ℕ
name = b'e' ∷ []

abbrev first : Candidate
first = record (new 10 name (1 ∷ [])) { creation_revision = 2 }

abbrev second : Candidate
second = record (new 11 name (2 ∷ [])) { creation_revision = 5 }

abbrev keys : List KeyValue
keys = node second ∷ node first ∷ []

candidate_key_test : first.candidate_key ≡ b'e' ∷ b'/' ∷ b'a' ∷ []
unfolding new candidate_key
candidate_key_test = refl

candidate_key-ne_test : candidate_key name 10 ≢ candidate_key name 11
candidate_key-ne_test = candidate_key-ne name 10 11 (omega arith)

first_wins : (on_range_request (answer range keys first) first).0.elected ≡ true
unfolding new Counter.new candidate_key prefix_end predecessor_request on_range_request
    election_result
first_wins = refl

elected_oldest_example : 2 ≤ 5
unfolding new candidate_key
elected_oldest_example =
    elected_oldest all_keys range range-EtcdRange first name keys (node second) refl (omega arith)
      refl first_wins (Memᴰ.head refl) refl

second_asks : (range keys (predecessor_request second)).kvs ≡ node first ∷ []
unfolding new candidate_key prefix_end predecessor_request
second_asks = refl

immediate_predecessor_example : (node first).create_revision ≤ (node first).create_revision
unfolding new candidate_key
immediate_predecessor_example =
    (immediate_predecessor all_keys range range-EtcdRange second name keys (node first) (node first)
      [] refl (omega arith) second_asks (Memᴰ.tail (Memᴰ.head refl)) refl (omega arith)).2

watches_predecessor_test :
    (on_range_request (answer range keys second) second).0.watched_keys
    ≡ insert_key (node first).key []
unfolding new Counter.new
watches_predecessor_test =
    (watches_predecessor all_keys range range-EtcdRange second keys (node first) [] refl
      second_asks).0

first_leads : (on_range_request (answer range (node first ∷ []) first) first).0.elected ≡ true
unfolding new Counter.new candidate_key prefix_end predecessor_request on_range_request
    election_result
first_leads = refl

-- A server with the first key alone, and later with both.
data Time : Type 0 where
  early late : Time

abbrev keys_at : Time → List KeyValue
keys_at early = node first ∷ []
keys_at late = keys

abbrev range_at : Time → RangeRequest → RangeResponse
range_at w = range (keys_at w)

abbrev revision_at : Time → ℕ
revision_at early = 3
revision_at late = 5

range_at-EtcdRange : EtcdRange keys_at range_at
range_at-EtcdRange = record {
  none_selected = λ w. range-EtcdRange.none_selected (keys_at w);
  limited = λ w. range-EtcdRange.limited (keys_at w);
  selected = λ w. range-EtcdRange.selected (keys_at w);
  present = λ w. range-EtcdRange.present (keys_at w);
  largest = λ w. range-EtcdRange.largest (keys_at w);
}

abbrev Later : Time → Time → Type 0
Later early late = Unit
Later _ _ = ⊥

created_at : (w : Time) (kv : KeyValue) → Memᴰ kv (keys_at w) → kv.create_revision ≤ revision_at w
created_at early kv (Memᴰ.head e) = omega (arith, ap (λ (x : KeyValue). x.create_revision) e)
created_at early kv (Memᴰ.tail m) = elim m [ ]
created_at late kv (Memᴰ.head e) = omega (arith, ap (λ (x : KeyValue). x.create_revision) e)
created_at late kv (Memᴰ.tail (Memᴰ.head e)) =
    omega (arith, ap (λ (x : KeyValue). x.create_revision) e)
created_at late kv (Memᴰ.tail (Memᴰ.tail m)) = elim m [ ]

there_at :
    (w v : Time) (kv : KeyValue)
    → Later w v
    → Memᴰ kv (keys_at v)
    → kv.create_revision ≤ revision_at w
    → (old : KeyValue) × Memᴰ old (keys_at w)
      × (old.key ≡ kv.key)
      × (old.create_revision ≡ kv.create_revision)
there_at early early kv l m h = elim l [ ]
there_at late v kv l m h = elim l [ ]
there_at early late kv l (Memᴰ.tail (Memᴰ.tail m)) h = elim m [ ]
there_at early late kv l (Memᴰ.head e) h =
    absurd (omega (arith, ap (λ (x : KeyValue). x.create_revision) e))
there_at early late kv l (Memᴰ.tail (Memᴰ.head e)) h = (kv, Memᴰ.head e, refl, refl)

growing : (w v : Time) → Later w v → revision_at w ≤ revision_at v
growing early early l = elim l [ ]
growing early late l = omega arith
growing late v l = elim l [ ]

history : EtcdHistory keys_at revision_at Later
history = record { grows = growing; created_before = created_at; was_there = there_at }

length-candidate_key_example :
    (length (candidate_key name 18446744073709551615) ≤ 18)
    × (3 ≤ length (candidate_key name 18446744073709551615))
length-candidate_key_example = length-candidate_key name 18446744073709551615 (omega arith)

no_older :
    (kv : KeyValue)
    → Memᴰ kv keys
    → has_prefix (election_prefix name) kv.key ≡ true
    → 2 ≤ kv.create_revision
no_older kv (Memᴰ.head e) p = omega (arith, ap (λ (x : KeyValue). x.create_revision) e)
no_older kv (Memᴰ.tail (Memᴰ.head e)) p = omega (arith, ap (λ (x : KeyValue). x.create_revision) e)
no_older kv (Memᴰ.tail (Memᴰ.tail m)) p = elim m [ ]

oldest_elected_example : (on_range_request (answer range keys first) first).0.elected ≡ true
unfolding new
oldest_elected_example =
    oldest_elected all_keys range range-EtcdRange first name keys refl (omega arith) refl no_older

-- An election at two times: the first candidate enters under two numbers, as a process that was started
-- again with its lease, and both are answered; then the server goes on.
abbrev leader : Candidate
leader = (on_range_request (answer range_at early first) first).0

abbrev slots : ℕ → Option Candidate
slots = put 1 leader (put 0 leader (put 1 first (put 0 first (λ i. none))))

early-Held : Held keys_at range_at Later name (record { server = early; at = slots })
unfolding new
early-Held =
    goes
      (goes
        (goes (goes (opens early) (enters 0 first refl refl refl (omega arith) (Memᴰ.head refl)))
          (enters 1 first refl refl refl (omega arith) (Memᴰ.head refl)))
        (answers 0 first refl))
      (answers 1 first refl)

late-Held : Held keys_at range_at Later name (record { server = late; at = slots })
late-Held = goes early-Held (moves late tt)

single_leader_example : leader.creation_revision ≡ leader.creation_revision
unfolding new candidate_key prefix_end predecessor_request on_range_request election_result
    Counter.new
single_leader_example =
    single_leader keys_at range_at revision_at Later name range_at-EtcdRange history
      (record { server = late; at = slots }) 0 1 leader leader late-Held refl refl refl refl
      (Memᴰ.tail (Memᴰ.head refl)) (Memᴰ.tail (Memᴰ.head refl))

elected-oldest_now_example : leader.creation_revision ≤ (node second).create_revision
unfolding new candidate_key prefix_end predecessor_request on_range_request election_result
    Counter.new
elected-oldest_now_example =
    elected-oldest_now keys_at range_at revision_at Later name range_at-EtcdRange history
      (record { server = late; at = slots }) 0 leader (node second) late-Held refl refl
      (Memᴰ.head refl) refl
