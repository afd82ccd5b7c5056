-- ===== src/Candidate/Tests/Scenarios.antt =====
-- gh/detail/election_candidate_impl_ut.cpp on the model: the stages of its tests, and their
-- expectations.
use gee_h.Prelude.{ℕ, ◌≡◌, refl, true, false, none, some, List, [], ◌∷◌}
use gee_h.Counter.{all_done}
use gee_h.Effect.{returns, throws, publication_failed}
use gee_h.Etcd.{KeyValue, TxnResponse, delete, range_op}
use gee_h.Candidate.{Candidate, watch_read}
use gee_h.Candidate.Resign.{Reply}
use gee_h.Candidate.Query.{on_range_request}
use gee_h.Candidate.Watch.{on_watch_create, on_watch_read}
use gee_h.Candidate.Leader.{unopposed}
use gee_h.Candidate.Succession.{opposed, succeeds}
use gee_h.Candidate.Tests.Mocks.{
  mock_key, key_123456, bcd2000, bcd1200, bcd1000, Stage, answering, campaigned, proclaimed,
  complete, no_watch, found_keys, ok_reply, reported, resigned,
}

abbrev created : ℕ → TxnResponse
created revision = record { revision = revision; succeeded = true; responses = [] }

-- The key is there, with this value, since revision 1500.
abbrev exists : List ℕ → TxnResponse
exists value = record {
  revision = 2000;
  succeeded = false;
  responses = (record { key = key_123456; value = value; create_revision = 1500 } ∷ []) ∷ [];
}

abbrev refused : TxnResponse
refused = record { revision = 0; succeeded = false; responses = [] }

-- `TEST(normal_lifecycle)`: until the candidate is elected, then to the end.
unfoldable normal_elected : Stage
unfolding campaigned complete answering
normal_elected =
    complete (found_keys 3000 [])
      (campaigned (answering (created 2000 ∷ created 0 ∷ []) 0x123456 bcd2000))

unfoldable normal_lifecycle : Stage
unfolding normal_elected proclaimed resigned
normal_lifecycle = resigned (proclaimed bcd1000 normal_elected)

-- `TEST(existing_node_same_value)` and `TEST(existing_node_value_mismatch)`, until the election.
unfoldable existing_node_same_value : Stage
unfolding campaigned complete answering
existing_node_same_value =
    complete (found_keys 3000 []) (campaigned (answering (exists bcd2000 ∷ []) 0x123456 bcd2000))

unfoldable existing_node_value_mismatch : Stage
unfolding campaigned complete answering
existing_node_value_mismatch =
    complete (found_keys 3000 [])
      (campaigned (answering (exists bcd1200 ∷ created 0 ∷ []) 0x123456 bcd2000))

-- `TEST(existing_node_put_error)`
unfoldable existing_node_put_error : Stage
unfolding campaigned answering
existing_node_put_error = campaigned (answering (exists bcd1200 ∷ refused ∷ []) 0x123456 bcd2000)

-- `TEST(compaction_before_watch)`: the candidate waits, its history is compacted, it waits again.
abbrev older : KeyValue
older = record { key = mock_key b'1' b'2' b'3'; value = []; create_revision = 1000 }

unfoldable compaction_waits : Stage
unfolding campaigned complete answering
compaction_waits = complete ok_reply (
    complete (found_keys 3000 (older ∷ []))
      (campaigned (answering (created 2000 ∷ []) 0x123456 bcd2000)))

unfoldable compaction_asks : Stage
unfolding compaction_waits complete
compaction_asks = complete (reported (record no_watch { compact_revision = 5000 })) compaction_waits

unfoldable compaction_before_watch : Stage
unfolding compaction_asks complete resigned
compaction_before_watch =
    resigned (complete ok_reply (complete (found_keys 5000 (older ∷ [])) compaction_asks))

-- `TEST(another_predecessor)`: the keys with the creation revisions 1200 and 1100 are watched in turn.
abbrev abc1300 : List ℕ
abc1300 = b'a' ∷ b'b' ∷ b'c' ∷ b'1' ∷ b'3' ∷ b'0' ∷ b'0' ∷ []

abbrev predecessor : ℕ → ℕ → KeyValue
predecessor digit revision = record {
  key = mock_key b'1' digit b'0';
  value = [];
  create_revision = revision;
}

abbrev deletes : ℕ → ℕ → Reply
deletes digit revision = reported (record no_watch {
  watch_id = 3000;
  events =
      record {
        type = delete;
        kv = record { key = []; value = []; create_revision = 0 };
        prev_kv = predecessor digit revision;
      }
      ∷ [];
})

unfoldable another_waits : Stage
unfolding campaigned complete answering
another_waits = complete ok_reply (
    complete (found_keys 1300 (predecessor b'2' 1200 ∷ []))
      (campaigned (answering (created 1300 ∷ []) 0x130000 abc1300)))

unfoldable another_waits_again : Stage
unfolding another_waits complete
another_waits_again = complete ok_reply (
    complete (found_keys 1400 (predecessor b'1' 1100 ∷ []))
      (complete (deletes b'2' 1000) another_waits))

unfoldable another_predecessor : Stage
unfolding another_waits_again complete
another_predecessor =
    complete (found_keys 1500 []) (complete (deletes b'1' 1100) another_waits_again)

-- The expectations of the tests.
normal_elected_test :
    (normal_elected.system.candidate.elected ≡ true)
    × (normal_elected.system.candidate.promise.value ≡ some true)
    × (normal_elected.system.candidate.queue ≡ [])
unfolding normal_elected
normal_elected_test = (refl, refl, refl)

normal_requests_test :
    normal_elected.mock.asked
    ≡ record {
      compare_key = key_123456;
      compare_create_revision = 0;
      put_key = key_123456;
      put_value = bcd2000;
      put_lease = 0x123456;
      failure = range_op key_123456;
    }
      ∷ []
unfolding normal_elected
normal_requests_test = refl

normal_lifecycle_test :
    (normal_lifecycle.result ≡ returns tt)
    × (normal_lifecycle.system.candidate.candidate_value ≡ bcd1000)
    × (all_done normal_lifecycle.system.candidate.ops ≡ true)
unfolding normal_lifecycle all_done
normal_lifecycle_test = (refl, refl, refl)

same_value_test :
    (existing_node_same_value.system.candidate.elected ≡ true)
    × (existing_node_same_value.system.candidate.creation_revision ≡ 1500)
    × (existing_node_same_value.mock.answers ≡ [])
unfolding existing_node_same_value
same_value_test = (refl, refl, refl)

value_mismatch_test :
    (existing_node_value_mismatch.system.candidate.elected ≡ true)
    × (existing_node_value_mismatch.mock.answers ≡ [])
unfolding existing_node_value_mismatch
value_mismatch_test = (refl, refl)

put_error_test :
    (existing_node_put_error.result ≡ throws publication_failed)
    × (existing_node_put_error.system.candidate.elected ≡ false)
unfolding existing_node_put_error
put_error_test = (refl, refl)

compaction_waits_test :
    (compaction_waits.system.candidate.elected ≡ false)
    × (compaction_waits.system.candidate.promise.value ≡ none)
    × (compaction_waits.system.candidate.queue ≡ watch_read older.key 3000 ∷ [])
unfolding compaction_waits
compaction_waits_test = (refl, refl, refl)

compaction_before_watch_test :
    (compaction_before_watch.system.candidate.promise.value ≡ some false)
    × (compaction_before_watch.result ≡ returns tt)
    × (all_done compaction_before_watch.system.candidate.reads ≡ true)
unfolding compaction_before_watch all_done
compaction_before_watch_test = (refl, refl, refl)

another_waits_test :
    (another_waits_again.system.candidate.elected ≡ false)
    × (another_waits_again.system.candidate.promise.value ≡ none)
    × (another_waits_again.system.candidate.watched_keys ≡ mock_key b'1' b'1' b'0' ∷ [])
unfolding another_waits another_waits_again
another_waits_test = (refl, refl, refl)

another_predecessor_test :
    (another_predecessor.system.candidate.elected ≡ true)
    × (another_predecessor.system.candidate.promise.value ≡ some true)
    × (another_predecessor.system.candidate.queue ≡ [])
unfolding another_predecessor
another_predecessor_test = (refl, refl, refl)

-- The candidate of `TEST(another_predecessor)` while its first query is on the way.
asking : Candidate
unfolding campaigned answering
asking = record (campaigned (answering (created 1300 ∷ []) 0x130000 abc1300)).system.candidate {
  queue = [];
}

succeeds_example :
    let watching = (on_range_request (opposed (predecessor b'2' 1200) 1300) asking).0 in
    let watched =
      on_watch_create true (mock_key b'1' b'2' b'0') 1300 (record watching { queue = [] }) in
    let free =
      on_watch_read true
        (deletes b'2' 1200).watch
        (mock_key b'1' b'2' b'0')
        1300
        (record watched { queue = [] }) in
    (on_range_request (unopposed 1500) (record free { queue = [] })).0.elected ≡ true
unfolding asking
succeeds_example =
    (succeeds asking (predecessor b'2' 1200)
      (record {
        type = delete;
        kv = record { key = []; value = []; create_revision = 0 };
        prev_kv = predecessor b'2' 1200;
      })
      (deletes b'2' 1200).watch 1300 1500 refl refl refl refl refl refl refl refl).4
