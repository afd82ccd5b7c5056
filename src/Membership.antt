-- ===== src/Membership.antt =====
-- gh/detail/cluster_membership_impl.hpp: the urls of the cluster's members, refreshed by a timer that
-- asks one known member after the other. Times are in microseconds.
pub mod Refresh
mod Scenarios
mod Tests
use gee_h.Prelude.{
  ℕ, zero, suc, Bool, true, false, not, List, [], ◌∷◌, ◌++◌, Option, none, some, if◌then◌else◌,
  ◌==◌, ltb, bytes_eq, bytes_lt,
}
use gee_h.Effect.{Outcome, returns, throws, invalid_argument}
use gee_h.Candidate.Query.{is_empty}

-- What is in the completion queue: the timer, or a request to the member at an index of the urls.
pub data Refreshing : Type 0 where
  refresh_timer : Refreshing
  member_list : List (List ℕ) → ℕ → Refreshing

-- The members of the class. `member_urls_` is a set, in ascending order; `has_timer` tells whether
-- `refresh_timer_` is set; `failures` counts the calls of the backoff policy, whose delay is not
-- read; the last field is what the completion queue holds.
pub record Membership : Type 0 where
  pub member_urls : List (List ℕ)
  pub refresh_interval : ℕ
  pub has_timer : Bool
  pub failures : ℕ
  pub queue : List Refreshing

unfoldable pub insert_url : List ℕ → List (List ℕ) → List (List ℕ)
insert_url u [] = u ∷ []
insert_url u (v ∷ vs) =
    if bytes_lt u v then u ∷ v ∷ vs else if bytes_eq u v then v ∷ vs else v ∷ insert_url u vs

unfoldable pub insert_urls : List (List ℕ) → List (List ℕ) → List (List ℕ)
unfolding insert_url
insert_urls [] vs = vs
insert_urls (u ∷ us) vs = insert_urls us (insert_url u vs)

-- The urls of all members of a response, each of which has a list of client urls.
unfoldable pub all_urls : List (List (List ℕ)) → List (List ℕ) → List (List ℕ)
unfolding insert_urls
all_urls [] vs = vs
all_urls (m ∷ ms) vs = all_urls ms (insert_urls m vs)

abbrev pub min_refresh_interval : ℕ
min_refresh_interval = 5000000

-- The constructors: one takes a url, the other a list.
unfoldable pub new : List (List ℕ) → ℕ → Outcome Membership
unfolding insert_urls
new urls refresh_interval =
    if ltb min_refresh_interval refresh_interval
    then returns (record {
      member_urls = insert_urls urls [];
      refresh_interval = refresh_interval;
      has_timer = false;
      failures = 0;
      queue = [];
    })
    else throws invalid_argument

unfoldable pub reset_refresh_timer : Membership → Membership
reset_refresh_timer m = record m { has_timer = true; queue = m.queue ++ refresh_timer ∷ [] }

unfoldable pub startup : Membership → Membership
unfolding reset_refresh_timer
startup m = reset_refresh_timer m

-- The url at an index, if there is one.
unfoldable pub url_at : List (List ℕ) → ℕ → Option (List ℕ)
url_at [] i = none
url_at (u ∷ us) zero = some u
url_at (u ∷ us) (suc i) = url_at us i

unfoldable pub try_query_cluster_membership : List (List ℕ) → ℕ → Membership → Membership
unfolding url_at reset_refresh_timer
try_query_cluster_membership urls i m = elim (url_at urls i) [
  | none ↦ reset_refresh_timer (record m { failures = suc m.failures })
  | some u ↦ record m { queue = m.queue ++ member_list urls i ∷ [] }
]

unfoldable pub on_refresh_expired : Bool → Membership → Membership
unfolding try_query_cluster_membership
on_refresh_expired ok m =
    let m' = record m { has_timer = false } in
    if ok then try_query_cluster_membership m.member_urls 0 m' else m'

-- `members` are the members' client urls.
unfoldable pub on_member_list_response :
    List (List ℕ) → ℕ → Bool → ℕ → List (List (List ℕ)) → Membership → Membership
unfolding try_query_cluster_membership all_urls reset_refresh_timer
on_member_list_response urls i ok status members m =
    let new_urls = all_urls members [] in
    let again = try_query_cluster_membership urls (suc i) m in
    if not ok
    then again
    else if not (status == 0)
    then again
    else if is_empty new_urls
    then again
    else reset_refresh_timer (record m { member_urls = new_urls })
