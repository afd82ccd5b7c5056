-- ===== src/Candidate/Watch.antt =====
-- The callbacks of the watcher stream.
use gee_h.Prelude.{ℕ, Bool, true, false, not, ◌||◌, List, [], ◌∷◌, if◌then◌else◌, ◌==◌, ltb}
use gee_h.Counter.{Counter, async_op_start, async_op_done}
use gee_h.Etcd.{Event, EventType, put, delete, other, WatchResponse}
use gee_h.Candidate.{Candidate, watch_read, post}
use gee_h.Candidate.Query.{query_predecessor, erase_key, is_empty}

-- `insert` and `erase` of `std::set<std::uint64_t>`, in ascending order.
unfoldable pub insert_watch : ℕ → List ℕ → List ℕ
insert_watch w [] = w ∷ []
insert_watch w (v ∷ vs) =
    if ltb w v then w ∷ v ∷ vs else if w == v then v ∷ vs else v ∷ insert_watch w vs

unfoldable pub erase_watch : ℕ → List ℕ → List ℕ
erase_watch w [] = []
erase_watch w (v ∷ vs) = if w == v then vs else v ∷ erase_watch w vs

-- A read of the stream on `reads_`, unless that is shut down.
unfoldable pub read_again : List ℕ → ℕ → Candidate → Candidate
unfolding async_op_start
read_again wkey wrevision c =
    let (reads, started) = async_op_start c.reads in
    if started
    then post (watch_read wkey wrevision) (record c { reads = reads })
    else record c { reads = reads }

unfoldable pub on_watch_create : Bool → List ℕ → ℕ → Candidate → Candidate
unfolding async_op_done read_again
on_watch_create ok wkey wrevision c =
    let c' = record c { ops = async_op_done c.ops } in
    if ok then read_again wkey wrevision c' else c'

-- The counter is the one of the `resign()` that posted the operation.
unfoldable pub on_watch_cancel : Counter → Counter
unfolding async_op_done
on_watch_cancel cancels = async_op_done cancels

abbrev pub is_delete : EventType → Bool
is_delete put = false
is_delete delete = true
is_delete other = false

-- The loop over the events: the keys that are still watched.
unfoldable pub erase_deleted : List Event → List (List ℕ) → List (List ℕ)
unfolding erase_key
erase_deleted [] ks = ks
erase_deleted (ev ∷ evs) ks =
    erase_deleted evs (if is_delete ev.type then erase_key ev.prev_kv.key ks else ks)

-- `canceled() or compact_revision()`
abbrev pub is_cancelled : WatchResponse → Bool
is_cancelled r = r.canceled || not (r.compact_revision == 0)

-- What `on_watch_read` records of a response before it decides how to go on.
unfoldable pub note_response : WatchResponse → Candidate → Candidate
unfolding insert_watch
note_response r c = record c {
  current_watches =
      if r.created then insert_watch r.watch_id c.current_watches else c.current_watches;
  watched_keys = erase_deleted r.events c.watched_keys;
}

-- The rest of `on_watch_read`.
unfoldable pub follow_up : WatchResponse → List ℕ → ℕ → Candidate → Candidate
unfolding erase_watch read_again query_predecessor
follow_up r wkey wrevision c =
    if is_cancelled r
    then query_predecessor (record c { current_watches = erase_watch r.watch_id c.current_watches })
    else if is_empty c.watched_keys
    then query_predecessor c
    else read_again wkey wrevision c

unfoldable pub on_watch_read : Bool → WatchResponse → List ℕ → ℕ → Candidate → Candidate
unfolding async_op_done note_response follow_up
on_watch_read ok r wkey wrevision c =
    let c' = record c { reads = async_op_done c.reads } in
    if ok then follow_up r wkey wrevision (note_response r c') else c'
