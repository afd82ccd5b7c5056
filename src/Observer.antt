-- ===== src/Observer.antt =====
-- gh/detail/election_observer_impl.hpp: an observer of an election, which keeps the participants and
-- tells its subscribers when the leader changes. `Events` has the callbacks of the completion queue.
pub mod Events
pub mod Leader
pub mod Changes
pub mod Histories
pub mod Kept
pub mod Waits
pub mod Tokens
pub mod Current
mod Scenarios
mod Tests
use gee_h.Prelude.{
  ℕ, suc, Bool, true, false, not, ◌&&◌, List, [], ◌∷◌, ◌++◌, Option, none, some, if◌then◌else◌,
  ◌==◌, ltb, bytes_eq,
}
use gee_h.Counter.{Counter}
use gee_h.Counter
use gee_h.Effect.{Outcome, returns, throws, empty_election}
use gee_h.Etcd.{KeyValue, RangeRequest, WatchRequest}
use gee_h.Candidate.Key.{election_prefix}

-- What the observer has in the completion queue.
pub data Watching : Type 0 where
  find_leader : RangeRequest → Watching
  start_watch : WatchRequest → Watching
  stop_watch : WatchRequest → Watching
  read_watch : Watching

-- A subscriber, which is a function of the application, is known by a number.
pub record Subscription : Type 0 where
  pub token : ℕ
  pub subscriber : ℕ

-- One call of a subscriber.
pub record Notice : Type 0 where
  pub subscriber : ℕ
  pub key : List ℕ
  pub value : List ℕ

-- The members of the class. `participants_` is a map by creation revision: here its values in
-- ascending order, each of which has its own key. The last two fields are what the completion queue
-- holds, and the calls of subscribers so far.
pub record Observer : Type 0 where
  pub election_name : List ℕ
  pub election_prefix : List ℕ
  pub subscriptions : List Subscription
  pub token_gen : ℕ
  pub watcher_stream : Bool
  pub watch_id : ℕ
  pub participants : List KeyValue
  pub ops : Counter
  pub queue : List Watching
  pub notices : List Notice

unfoldable pub new : List ℕ → Observer
new election_name = record {
  election_name = election_name;
  election_prefix = election_prefix election_name;
  subscriptions = [];
  token_gen = 0;
  watcher_stream = false;
  watch_id = 0;
  participants = [];
  ops = Counter.new;
  queue = [];
  notices = [];
}

-- `find`, and assignment at the key of the value, on the map.
unfoldable pub find : ℕ → List KeyValue → Option KeyValue
find r [] = none
find r (p ∷ ps) = if p.create_revision == r then some p else find r ps

unfoldable pub assign : KeyValue → List KeyValue → List KeyValue
assign kv [] = kv ∷ []
assign kv (p ∷ ps) =
    if ltb kv.create_revision p.create_revision
    then kv ∷ p ∷ ps
    else if p.create_revision == kv.create_revision
    then kv ∷ ps
    else p ∷ assign kv ps

unfoldable pub erase : ℕ → List KeyValue → List KeyValue
erase r [] = []
erase r (p ∷ ps) = if p.create_revision == r then ps else p ∷ erase r ps

-- Whether the iterator at this key is `begin()`.
abbrev pub is_first : ℕ → List KeyValue → Bool
is_first r [] = false
is_first r (p ∷ ps) = p.create_revision == r

-- Whether a put changes the value at its key.
abbrev pub changes : KeyValue → Option KeyValue → Bool
changes kv none = true
changes kv (some p) = not (bytes_eq kv.value p.value)

-- The map after the put, and whether the leader changed.
unfoldable pub handle_node_put : KeyValue → List KeyValue → List KeyValue × Bool
unfolding find assign
handle_node_put kv ps =
    let qs = assign kv ps in
    (qs, is_first kv.create_revision qs && changes kv (find kv.create_revision ps))

unfoldable pub handle_node_delete : KeyValue → List KeyValue → List KeyValue × Bool
unfolding find erase
handle_node_delete kv ps = elim (find kv.create_revision ps) [
  | none ↦ (ps, false)
  | some _ ↦ (erase kv.create_revision ps, is_first kv.create_revision ps)
]

-- `begin()->second`
abbrev pub leader : List KeyValue → Option KeyValue
leader [] = none
leader (p ∷ ps) = some p

unfoldable pub has_leader : Observer → Bool
has_leader o = elim o.participants [ [] ↦ false | p ∷ ps ↦ true ]

unfoldable pub current_key : Observer → Outcome (List ℕ)
current_key o = elim (leader o.participants) [
  | none ↦ throws empty_election
  | some p ↦ returns p.key
]

unfoldable pub current_value : Observer → Outcome (List ℕ)
current_value o = elim (leader o.participants) [
  | none ↦ throws empty_election
  | some p ↦ returns p.value
]

-- The subscriber is called at once if there is a leader. The result is the token.
unfoldable pub subscribe : ℕ → Observer → Observer × ℕ
subscribe subscriber o =
    let token = suc o.token_gen in
    (
      record o {
        notices = elim (leader o.participants) [
          | none ↦ o.notices
          | some p ↦
              o.notices ++ record { subscriber = subscriber; key = p.key; value = p.value } ∷ []
        ];
        token_gen = token;
        subscriptions = o.subscriptions ++ record { token = token; subscriber = subscriber } ∷ [];
      },
      token,
    )

unfoldable pub drop_token : ℕ → List Subscription → List Subscription
drop_token t [] = []
drop_token t (s ∷ ss) = if s.token == t then ss else s ∷ drop_token t ss

unfoldable pub unsubscribe : ℕ → Observer → Observer
unfolding drop_token
unsubscribe token o = record o { subscriptions = drop_token token o.subscriptions }

-- The key and the value that the subscribers are called with: empty ones without a leader.
unfoldable pub notices_of : Option KeyValue → List Subscription → List Notice
notices_of kv [] = []
notices_of kv (s ∷ ss) =
    (elim kv [
      | none ↦ record { subscriber = s.subscriber; key = []; value = [] }
      | some p ↦ record { subscriber = s.subscriber; key = p.key; value = p.value }
    ])
    ∷ notices_of kv ss

-- The order of the calls, which is that of a hash map, is the order of the tokens here.
unfoldable pub call_subscribers : Observer → Observer
unfolding notices_of
call_subscribers o = record o {
  notices = o.notices ++ notices_of (leader o.participants) o.subscriptions;
}
