-- ===== src/Membership/Tests.antt =====
-- A membership with one url, whose member answers with two.
use gee_h.Prelude.{ℕ, ◌≡◌, refl, true, false, List, [], ◌∷◌, length}
use gee_h.Candidate.Query.{is_empty}
use gee_h.Membership.{
  refresh_timer, member_list, Membership, new, startup, on_refresh_expired, on_member_list_response,
}
use gee_h.Membership.Refresh.{
  Result, proceed, Refreshes, started, expired, answered, keeps_refreshing,
}

abbrev seeds : List (List ℕ)
seeds = (7 ∷ []) ∷ []

abbrev fresh : Membership
fresh = record {
  member_urls = seeds;
  refresh_interval = 6000000;
  has_timer = false;
  failures = 0;
  queue = [];
}

abbrev fired : Result
fired = record { ok = true; status = 0; members = [] }

abbrev listed : Result
listed = record { ok = true; status = 0; members = ((9 ∷ []) ∷ []) ∷ ((8 ∷ []) ∷ []) ∷ [] }

asking : Membership
unfolding startup proceed on_refresh_expired
asking = proceed refresh_timer fired (record (startup fresh) { queue = [] })

asking-Refreshes : Refreshes seeds asking
unfolding new asking
asking-Refreshes = expired fired (started 6000000 fresh refl) refl refl

known : Membership
unfolding asking on_member_list_response
known = proceed (member_list seeds 0) listed (record asking { queue = [] })

sorted_test : known.member_urls ≡ (8 ∷ []) ∷ (9 ∷ []) ∷ []
unfolding known
sorted_test = refl

keeps_refreshing_example : (length known.queue ≡ 1) × (is_empty known.member_urls ≡ false)
unfolding known
keeps_refreshing_example =
    keeps_refreshing (7 ∷ []) [] known (answered seeds 0 listed asking-Refreshes refl)
