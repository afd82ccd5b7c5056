-- ===== src/Membership/Refresh.antt =====
-- The refresh loop of a membership that has started.
use gee_h.Prelude.{ℕ, suc, ◌≡◌, refl, Bool, true, false, List, [], ◌∷◌, arith, length}
use gee_h.Effect.{returns}
use gee_h.Candidate.Query.{is_empty}
use gee_h.Membership.{
  Refreshing, refresh_timer, member_list, Membership, new, startup, reset_refresh_timer,
  try_query_cluster_membership, on_refresh_expired, on_member_list_response, insert_url,
  insert_urls,
}

-- What the completion of an operation brings.
pub record Result : Type 0 where
  pub ok : Bool
  pub status : ℕ
  pub members : List (List (List ℕ))

-- The lambda that was given with the operation.
unfoldable pub proceed : Refreshing → Result → Membership → Membership
proceed refresh_timer r m = on_refresh_expired r.ok m
proceed (member_list urls i) r m = on_member_list_response urls i r.ok r.status r.members m

-- The states after `startup()` while the timer has not been cancelled.
pub data Refreshes (urls : List (List ℕ)) : Membership → Type 0 where
  started :
      (refresh_interval : ℕ) (m : Membership)
      → new urls refresh_interval ≡ returns m
      → Refreshes urls (startup m)
  expired :
      {m : Membership} (r : Result)
      → Refreshes urls m
      → m.queue ≡ refresh_timer ∷ []
      → r.ok ≡ true
      → Refreshes urls (proceed refresh_timer r (record m { queue = [] }))
  answered :
      {m : Membership} (asked : List (List ℕ)) (i : ℕ) (r : Result)
      → Refreshes urls m
      → m.queue ≡ member_list asked i ∷ []
      → Refreshes urls (proceed (member_list asked i) r (record m { queue = [] }))

record IsLive (m : Membership) : Type 0 where
  single : length m.queue ≡ 1
  known : is_empty m.member_urls ≡ false

is_empty-insert_url : (u : List ℕ) (vs : List (List ℕ)) → is_empty (insert_url u vs) ≡ false
unfolding insert_url
is_empty-insert_url u [] = refl
is_empty-insert_url u (v ∷ vs) = ground arith

is_empty-insert_urls :
    (us vs : List (List ℕ)) → is_empty vs ≡ false → is_empty (insert_urls us vs) ≡ false
unfolding insert_urls
is_empty-insert_urls [] vs h = h
is_empty-insert_urls (u ∷ us) vs h =
    is_empty-insert_urls us (insert_url u vs) (is_empty-insert_url u vs)

try-IsLive :
    (urls : List (List ℕ)) (i : ℕ) (m : Membership)
    → m.queue ≡ []
    → is_empty m.member_urls ≡ false
    → IsLive (try_query_cluster_membership urls i m)
unfolding try_query_cluster_membership reset_refresh_timer
try-IsLive urls i m e h = ground arith

response-IsLive :
    (urls : List (List ℕ)) (i : ℕ) (ok : Bool) (status : ℕ) (members : List (List (List ℕ)))
    (m : Membership)
    → m.queue ≡ []
    → is_empty m.member_urls ≡ false
    → IsLive (on_member_list_response urls i ok status members m)
unfolding on_member_list_response reset_refresh_timer
response-IsLive urls i ok status members m e h = ground (arith, try-IsLive urls (suc i) m e h)

Refreshes-IsLive :
    (u : List ℕ) (us : List (List ℕ)) {m : Membership} → Refreshes (u ∷ us) m → IsLive m
unfolding new startup reset_refresh_timer proceed on_refresh_expired insert_urls insert_url
Refreshes-IsLive u us (started interval m h) = ground (arith, is_empty-insert_urls us (u ∷ []) refl)
Refreshes-IsLive u us (expired {m} r l e h) =
    let v = Refreshes-IsLive u us l in
    ground
      (arith, try-IsLive m.member_urls 0 (record m { queue = []; has_timer = false }) refl v.known)
Refreshes-IsLive u us (answered {m} asked i r l e) =
    let v = Refreshes-IsLive u us l in
    response-IsLive asked i r.ok r.status r.members (record m { queue = [] }) refl v.known

-- A membership that starts with a url goes on refreshing until its timer is cancelled: whatever the
-- members answer, exactly one operation is outstanding, and a url is known.
pub keeps_refreshing :
    (u : List ℕ) (us : List (List ℕ)) (m : Membership)
    → Refreshes (u ∷ us) m
    → (length m.queue ≡ 1) × (is_empty m.member_urls ≡ false)
keeps_refreshing u us m l = let v = Refreshes-IsLive u us l in (v.single, v.known)
