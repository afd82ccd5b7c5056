-- ===== src/Membership/Scenarios.antt =====
-- gh/detail/cluster_membership_impl_ut.cpp on the model: the stages of its tests, and their
-- expectations.
use gee_h.Prelude.{ℕ, ◌≡◌, refl, true, false, List, [], ◌∷◌}
use gee_h.Effect.{Outcome, returns, throws, invalid_argument}
use gee_h.Membership.{
  refresh_timer, Membership, new, startup, reset_refresh_timer, on_refresh_expired,
  on_member_list_response, try_query_cluster_membership, url_at, all_urls, insert_urls, insert_url,
}
use gee_h.Membership.Refresh.{Result, proceed}

-- "urlM.U"
abbrev url : ℕ → ℕ → List ℕ
url m u = b'u' ∷ b'r' ∷ b'l' ∷ m ∷ b'.' ∷ u ∷ []

abbrev localhost : List ℕ
localhost =
    b'l' ∷ b'o' ∷ b'c' ∷ b'a' ∷ b'l' ∷ b'h' ∷ b'o' ∷ b's' ∷ b't' ∷ b':' ∷ b'2' ∷ b'2' ∷ b'3' ∷ b'7'
    ∷ b'9' ∷ []

abbrev lists : List (List (List ℕ)) → Result
lists members = record { ok = true; status = 0; members = members }

abbrev fired : Result
fired = lists []

abbrev cancelled : Result
cancelled = record { ok = false; status = 0; members = [] }

abbrev failed : ℕ → Result
failed status = record { ok = true; status = status; members = [] }

-- The object that the tests construct, with an interval of 30 seconds.
abbrev cluster : Membership
cluster = record {
  member_urls = localhost ∷ [];
  refresh_interval = 30000000;
  has_timer = false;
  failures = 0;
  queue = [];
}

cluster_test : new (localhost ∷ []) 30000000 ≡ returns cluster
unfolding new insert_urls insert_url
cluster_test = refl

-- The operation in the queue completes.
unfoldable complete : Result → Membership → Membership
unfolding proceed on_refresh_expired on_member_list_response try_query_cluster_membership url_at
    all_urls insert_urls insert_url reset_refresh_timer
complete r m = elim m.queue [ [] ↦ m | op ∷ ops ↦ proceed op r (record m { queue = ops }) ]

-- `startup()`, the timer, and the answer of the only member.
unfoldable answered : List (List (List ℕ)) → Membership
unfolding startup complete
answered members = complete (lists members) (complete fired (startup cluster))

-- `TEST(normal_lifecycle)`, where the last timer is cancelled by `shutdown()`.
unfoldable normal_answered : Membership
unfolding answered
normal_answered =
    answered ((url b'0' b'0' ∷ url b'0' b'1' ∷ []) ∷ (url b'1' b'0' ∷ url b'1' b'1' ∷ []) ∷ [])

unfoldable normal_lifecycle : Membership
unfolding normal_answered complete
normal_lifecycle = complete cancelled normal_answered

normal_lifecycle_test :
    (normal_answered.member_urls
      ≡ url b'0' b'0' ∷ url b'0' b'1' ∷ url b'1' b'0' ∷ url b'1' b'1' ∷ [])
    × (normal_lifecycle.queue ≡ [])
unfolding normal_answered normal_lifecycle
normal_lifecycle_test = (refl, refl)

abbrev three_urls : List (List ℕ)
three_urls = url b'0' b'0' ∷ url b'0' b'1' ∷ url b'0' b'2' ∷ []

-- `TEST(with_failure)`: one request is cancelled, two return an error.
unfoldable failure_answered : Membership
unfolding answered
failure_answered = answered (three_urls ∷ [])

unfoldable with_failure : Membership
unfolding failure_answered complete
with_failure =
    complete (failed 2) (complete (failed 4) (complete cancelled (complete fired failure_answered)))

with_failure_test :
    (failure_answered.member_urls ≡ three_urls)
    × (with_failure.member_urls ≡ three_urls)
    × (with_failure.queue ≡ refresh_timer ∷ [])
    × (with_failure.failures ≡ 1)
unfolding failure_answered with_failure
with_failure_test = (refl, refl, refl, refl)

-- `TEST(with_empty_list)`: the first member answers with no urls, the next one with two.
unfoldable with_empty_list : Membership
unfolding failure_answered complete
with_empty_list =
    complete (lists ((url b'1' b'0' ∷ url b'1' b'1' ∷ []) ∷ []))
      (complete (lists []) (complete fired failure_answered))

with_empty_list_test : with_empty_list.member_urls ≡ url b'1' b'0' ∷ url b'1' b'1' ∷ []
unfolding with_empty_list
with_empty_list_test = refl

-- `TEST(invalid_arguments)`
unfoldable invalid_arguments : Outcome Membership
unfolding new
invalid_arguments = new (localhost ∷ []) 500000

invalid_arguments_test : invalid_arguments ≡ throws invalid_argument
unfolding invalid_arguments
invalid_arguments_test = refl
