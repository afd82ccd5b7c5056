-- ===== src/Observer/Current.antt =====
-- The leader that the observer reports against the events of a response.
use gee_h.Prelude.{ℕ, ◌≤◌, ◌<◌, ◌≡◌, refl, sym, ap, ◌∙◌, true, false, List, [], ◌∷◌, some, arith}
use gee_h.Effect.{returns}
use gee_h.Etcd.{KeyValue, WatchResponse}
use gee_h.Candidate.Watch.{is_cancelled}
use gee_h.Observer.{Observer, find, leader, current_key, current_value, call_subscribers}
use gee_h.Observer.Events.{handle_events, on_watch_read, start_op}
use gee_h.Observer.Leader.{Above, IsSorted}
use gee_h.Observer.Changes.{all_latest, find-handle_events, handle_events-IsSorted}
use gee_h.Observer.Histories.{Watched}
use gee_h.Observer.Kept.{Watched-IsKept}

revision_of_find :
    (r : ℕ) (p : KeyValue) (ps : List KeyValue) → find r ps ≡ some p → p.create_revision ≡ r
unfolding find
revision_of_find r p [] h = absurd (ground arith)
revision_of_find r p (x ∷ ps) h = ground (arith, revision_of_find r p ps)

lt_of_find :
    (r q : ℕ) (p : KeyValue) (ps : List KeyValue)
    → Above q ps
    → find r ps ≡ some p
    → q < p.create_revision
unfolding find
lt_of_find r q p [] a h = absurd (ground arith)
lt_of_find r q p (x ∷ ps) a h = ground (arith, lt_of_find r q p ps)

-- `p` leads the participants `ps`, and is not younger than `r`.
record LeadsOver (r : ℕ) (p : KeyValue) (ps : List KeyValue) : Type 0 where
  first : leader ps ≡ some p
  there : find p.create_revision ps ≡ some p
  oldest : p.create_revision ≤ r

leads_over :
    (r : ℕ) (q : KeyValue) (ps : List KeyValue)
    → IsSorted ps
    → find r ps ≡ some q
    → (p : KeyValue) × LeadsOver r p ps
unfolding find
leads_over r q [] s h = absurd (ground arith)
leads_over r q (p ∷ ps) s h = (
  p,
  record {
    first = refl;
    there = ground arith;
    oldest = ground (arith, lt_of_find r p.create_revision q ps, revision_of_find r q ps);
  },
)

on_watch_read-participants :
    (r : WatchResponse) (o : Observer)
    → is_cancelled r ≡ false
    → (on_watch_read true r o).participants ≡ (handle_events r.events o.participants false).0
unfolding on_watch_read start_op call_subscribers
on_watch_read-participants r o h = ground arith

current_lem :
    (o : Observer) (p : KeyValue)
    → leader o.participants ≡ some p
    → (current_key o ≡ returns p.key) × (current_value o ≡ returns p.value)
unfolding current_key current_value
current_lem o p h = (ground (arith, h), ground (arith, h))

-- Take an observer after any history, and a response that does not end the watcher. If its events leave
-- an entry at some revision, then `current_key()` and `current_value()` return those of an entry that
-- the events leave, and it was created at that revision or before.
pub current_key-latest :
    (o : Observer) (r : WatchResponse) (revision : ℕ) (q : KeyValue)
    → Watched o
    → is_cancelled r ≡ false
    → all_latest revision r.events (find revision o.participants) ≡ some q
    → let d = on_watch_read true r o in
      (p : KeyValue) × (current_key d ≡ returns p.key)
      × (current_value d ≡ returns p.value)
      × (all_latest p.create_revision r.events (find p.create_revision o.participants) ≡ some p)
      × (p.create_revision ≤ revision)
current_key-latest o r revision q w alive left =
    let d = on_watch_read true r o in
    let s = (Watched-IsKept w).sorted in
    let ps = (handle_events r.events o.participants false).0 in
    let (p, v) =
      leads_over revision q ps (handle_events-IsSorted r.events o.participants false s)
        (find-handle_events revision r.events o.participants false s ∙ left) in
    let (key, value) =
      current_lem d p (ap leader (on_watch_read-participants r o alive) ∙ v.first) in
    (
      p,
      key,
      value,
      sym (find-handle_events p.create_revision r.events o.participants false s) ∙ v.there,
      v.oldest,
    )
