-- ===== src/Observer/Histories.antt =====
-- An observer in any history: methods of the application and callbacks of the completion queue.
use gee_h.Prelude.{ℕ, ◌≡◌, Bool, List, ◌∷◌, ◌++◌}
use gee_h.Etcd.{RangeResponse, WatchResponse}
use gee_h.Observer.{
  Watching, find_leader, start_watch, stop_watch, read_watch, Observer, new, subscribe, unsubscribe,
}
use gee_h.Observer.Events.{
  startup, shutdown, on_range_request, on_watch_create, on_watch_cancel, on_watch_read,
}

pub record Report : Type 0 where
  pub ok : Bool
  pub status : ℕ
  pub range : RangeResponse
  pub watch : WatchResponse

-- The lambda that was given with the operation.
unfoldable pub react : Watching → Report → Observer → Observer
unfolding on_range_request on_watch_create on_watch_cancel on_watch_read
react (find_leader req) r o =
    (on_range_request (record { ok = r.ok; status = r.status; response = r.range }) o).0
react (start_watch req) r o = on_watch_create r.ok o
react (stop_watch req) r o = on_watch_cancel r.ok o
react read_watch r o = on_watch_read r.ok r.watch o

-- The completion queue takes an operation out.
abbrev pub leaving : List Watching → List Watching → Observer → Observer
leaving xs ys o = record o { queue = xs ++ ys }

-- The states of an observer before its destructor.
pub data Watched : Observer → Type 0 where
  created : (election_name : List ℕ) → Watched (new election_name)
  starts : {o : Observer} (ok : Bool) → Watched o → Watched (startup ok o).0
  stops : {o : Observer} → Watched o → Watched (shutdown o).0
  subscribes : {o : Observer} (subscriber : ℕ) → Watched o → Watched (subscribe subscriber o).0
  unsubscribes : {o : Observer} (token : ℕ) → Watched o → Watched (unsubscribe token o)
  reacts :
      {o : Observer} (xs ys : List Watching) (op : Watching) (r : Report)
      → o.queue ≡ xs ++ op ∷ ys
      → Watched o
      → Watched (react op r (leaving xs ys o))
