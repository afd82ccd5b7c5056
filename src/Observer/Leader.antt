-- ===== src/Observer/Leader.antt =====
-- The participants as a map by creation revision, and when the leader changes.
use gee_h.Prelude.{
  ℕ, ◌<◌, ◌≡◌, refl, Bool, true, false, not, ◌&&◌, List, [], ◌∷◌, Option, none, some, if◌then◌else◌,
  ◌==◌, arith, bytes_eq, bytes_eq_refl,
}
use gee_h.Etcd.{KeyValue}
use gee_h.Observer.{find, assign, erase, handle_node_put, handle_node_delete, leader}

-- Every entry is younger than revision `r`.
abbrev pub Above : ℕ → List KeyValue → Type 0
Above r [] = Unit
Above r (p ∷ ps) = (r < p.create_revision) × Above r ps

-- The entries stand in the order of their keys, as in a `std::map`.
abbrev pub IsSorted : List KeyValue → Type 0
IsSorted [] = Unit
IsSorted (p ∷ ps) = Above p.create_revision ps × IsSorted ps

Above-assign :
    (r : ℕ) (kv : KeyValue) (ps : List KeyValue)
    → r < kv.create_revision
    → Above r ps
    → Above r (assign kv ps)
unfolding assign
Above-assign r kv [] h a = ground arith
Above-assign r kv (p ∷ ps) h a = ground (arith, Above-assign r kv ps h)

Above-weaken : (q r : ℕ) (ps : List KeyValue) → q < r → Above r ps → Above q ps
Above-weaken q r [] h a = tt
Above-weaken q r (p ∷ ps) h a = ground (arith, Above-weaken q r ps h)

pub assign-IsSorted : (kv : KeyValue) (ps : List KeyValue) → IsSorted ps → IsSorted (assign kv ps)
unfolding assign
assign-IsSorted kv [] s = ground arith
assign-IsSorted kv (p ∷ ps) s = ground (
  arith,
  assign-IsSorted kv ps,
  Above-assign p.create_revision kv ps,
  Above-weaken kv.create_revision p.create_revision ps,
)

Above-erase : (q r : ℕ) (ps : List KeyValue) → Above q ps → Above q (erase r ps)
unfolding erase
Above-erase q r [] a = tt
Above-erase q r (p ∷ ps) a = ground (arith, Above-erase q r ps)

pub erase-IsSorted : (r : ℕ) (ps : List KeyValue) → IsSorted ps → IsSorted (erase r ps)
unfolding erase
erase-IsSorted r [] s = tt
erase-IsSorted r (p ∷ ps) s =
    ground (arith, erase-IsSorted r ps, Above-erase p.create_revision r ps)

find-Above : (r : ℕ) (ps : List KeyValue) → Above r ps → find r ps ≡ none
unfolding find
find-Above r [] a = refl
find-Above r (p ∷ ps) a = ground (arith, find-Above r ps)

find-below : (r q : ℕ) (ps : List KeyValue) → r < q → Above q ps → find r ps ≡ none
find-below r q ps h a = find-Above r ps (Above-weaken r q ps h a)

pub find-assign :
    (r : ℕ) (kv : KeyValue) (ps : List KeyValue)
    → find r (assign kv ps) ≡ (if kv.create_revision == r then some kv else find r ps)
unfolding find assign
find-assign r kv [] = refl
find-assign r kv (p ∷ ps) = ground (arith, find-assign r kv ps)

pub find-erase :
    (r q : ℕ) (ps : List KeyValue)
    → IsSorted ps
    → find r (erase q ps) ≡ (if q == r then none else find r ps)
unfolding find erase
find-erase r q [] s = ground arith
find-erase r q (p ∷ ps) s = ground (arith, find-erase r q ps, find-Above p.create_revision ps)

-- What the subscribers can tell of a leader: its creation revision and its value.
abbrev pub same_leader : Option KeyValue → Option KeyValue → Bool
same_leader none none = true
same_leader none (some q) = false
same_leader (some p) none = false
same_leader (some p) (some q) = (p.create_revision == q.create_revision) && bytes_eq q.value p.value

-- A put reports a change exactly when the leader is another one afterwards, or has another value.
pub handle_node_put-same_leader :
    (kv : KeyValue) (ps : List KeyValue)
    → IsSorted ps
    → (handle_node_put kv ps).1 ≡ not (same_leader (leader ps) (leader (handle_node_put kv ps).0))
unfolding handle_node_put assign find
handle_node_put-same_leader kv [] s = ground arith
handle_node_put-same_leader kv (p ∷ ps) s =
    ground (arith, bytes_eq_refl p.value, find-below kv.create_revision p.create_revision ps)

-- So does a deletion.
pub handle_node_delete-same_leader :
    (kv : KeyValue) (ps : List KeyValue)
    → IsSorted ps
    → (handle_node_delete kv ps).1
      ≡ not (same_leader (leader ps) (leader (handle_node_delete kv ps).0))
unfolding handle_node_delete find erase
handle_node_delete-same_leader kv [] s = refl
handle_node_delete-same_leader kv (p ∷ []) s = ground (arith, bytes_eq_refl p.value)
handle_node_delete-same_leader kv (p ∷ q ∷ ps) s = ground (arith, bytes_eq_refl p.value)
