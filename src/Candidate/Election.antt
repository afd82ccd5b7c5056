-- ===== src/Candidate/Election.antt =====
-- Who wins: the query of a candidate against what etcd documents of range requests.
use mathlib.Core.List.{Memᴰ}
use gee_h.Prelude.{
  ℕ, ◌≤◌, ◌<◌, ◌≡◌, ◌≢◌, refl, Bool-cases, inl, inr, ap, ◌∙◌, ℤ, pos, negsuc, Bool, true, false,
  ◌&&◌, ◌||◌, List, [], ◌∷◌, ◌++◌, arith, leb, ltb, is_zero, has_prefix,
}
use gee_h.PrefixEnd.Range.{in_range, in_range-prefix_end}
use gee_h.Effect.{Completion}
use gee_h.Etcd.{KeyValue, RangeRequest, RangeResponse, descend, by_create, create_request}
use gee_h.Candidate.{Candidate, watch_create, election_result}
use gee_h.Candidate.Key.{election_prefix, candidate_key, candidate_key-has_prefix}
use gee_h.Candidate.Campaign.Node.{node}
use gee_h.Candidate.Query.{predecessor_request, watch_all, insert_key, is_empty, on_range_request}

-- `a <= z`, for a revision and an `int64` field.
abbrev pub leb_ℤ : ℕ → ℤ → Bool
leb_ℤ a (pos n) = leb a n
leb_ℤ a (negsuc n) = false

-- The keys that a range request asks for; a bound of 0 is no bound.
abbrev pub selects : RangeRequest → KeyValue → Bool
selects req kv =
    in_range req.key req.range_end kv.key
    && (is_zero req.max_create_revision || leb_ℤ kv.create_revision req.max_create_revision)

-- What etcd documents of a range request that is sorted by descending creation revision and has a
-- limit of 1: it finds the selected key with the largest revision, or none if none is selected.
pub record EtcdRange {W : Type 0} (store : W → List KeyValue)
    (range : W → RangeRequest → RangeResponse) : Type 0 where
  pub none_selected :
      (w : W) (req : RangeRequest) (kv : KeyValue)
      → (range w req).kvs ≡ []
      → Memᴰ kv (store w)
      → selects req kv ≡ false
  pub limited :
      (w : W) (req : RangeRequest) (kv : KeyValue) (kvs : List KeyValue)
      → req.limit ≡ 1
      → (range w req).kvs ≡ kv ∷ kvs
      → kvs ≡ []
  pub selected :
      (w : W) (req : RangeRequest) (kv : KeyValue) (kvs : List KeyValue)
      → (range w req).kvs ≡ kv ∷ kvs
      → selects req kv ≡ true
  pub present :
      (w : W) (req : RangeRequest) (kv : KeyValue) (kvs : List KeyValue)
      → (range w req).kvs ≡ kv ∷ kvs
      → Memᴰ kv (store w)
  pub largest :
      (w : W) (req : RangeRequest) (kv other : KeyValue) (kvs : List KeyValue)
      → req.sort_order ≡ descend
      → req.sort_target ≡ by_create
      → (range w req).kvs ≡ kv ∷ kvs
      → Memᴰ other (store w)
      → selects req other ≡ true
      → other.create_revision ≤ kv.create_revision

-- The query's selection: the keys of the election that are older than the candidate.
pub selects-predecessor_request :
    (c : Candidate) (name : List ℕ) (kv : KeyValue)
    → c.election_prefix ≡ election_prefix name
    → 1 < c.creation_revision
    → selects (predecessor_request c) kv
      ≡ (has_prefix c.election_prefix kv.key && ltb kv.create_revision c.creation_revision)
unfolding predecessor_request election_prefix
selects-predecessor_request c name kv e h =
    rw (e, predecessor_request) (ground (arith, in_range-prefix_end name kv.key b'/'))

is_empty-insert_key : (k : List ℕ) (ks : List (List ℕ)) → is_empty (insert_key k ks) ≡ false
unfolding insert_key
is_empty-insert_key k [] = refl
is_empty-insert_key k (j ∷ ks) = ground arith

-- The answer with one key never elects the candidate.
on_range_request-elected :
    (op : Completion RangeResponse) (c : Candidate) (kv : KeyValue)
    → op.ok ≡ true
    → op.response.kvs ≡ kv ∷ []
    → c.elected ≡ false
    → (on_range_request op c).0.elected ≡ false
unfolding on_range_request election_result
on_range_request-elected op c kv o e n =
    rw (o, e, on_range_request) (ground (arith, is_empty-insert_key kv.key c.watched_keys))

on_range_request_one :
    (op : Completion RangeResponse) (c : Candidate) (kv : KeyValue)
    → op.ok ≡ true
    → op.status ≡ 0
    → op.response.kvs ≡ kv ∷ []
    → c.ops.shutdown ≡ false
    → let d = (on_range_request op c).0 in
      (d.watched_keys ≡ insert_key kv.key c.watched_keys)
      × (d.queue
          ≡ c.queue
            ++ watch_create
                (create_request (record {
                  key = kv.key;
                  range_end = [];
                  start_revision = op.response.revision;
                  prev_kv = true;
                  progress_notify = false;
                }))
                kv.key
                op.response.revision
              ∷ [])
      × (d.elected ≡ c.elected)
      × (d.promise ≡ c.promise)
unfolding on_range_request watch_all
on_range_request_one op c kv o z e s =
    rw (o, z, e) (ground (arith, is_empty-insert_key kv.key c.watched_keys))

-- The completion that brings the answer of the server at state `w` to the candidate's query.
abbrev pub answer :
    {W : Type 0} → (W → RangeRequest → RangeResponse) → W → Candidate → Completion RangeResponse
answer range w c = record { ok = true; status = 0; response = range w (predecessor_request c) }

module _ {W : Type 0} (store : W → List KeyValue) (range : W → RangeRequest → RangeResponse)
    (laws : EtcdRange store range) where
  -- A candidate that is not elected, and whose key was created after the server's first revision,
  -- becomes elected by the answer to its query only if, at the state of the server that answered, no
  -- key of the election is older than the candidate.
  pub elected_oldest :
      (c : Candidate) (name : List ℕ) (w : W) (kv : KeyValue)
      → c.election_prefix ≡ election_prefix name
      → 1 < c.creation_revision
      → c.elected ≡ false
      → (on_range_request (answer range w c) c).0.elected ≡ true
      → Memᴰ kv (store w)
      → has_prefix (election_prefix name) kv.key ≡ true
      → c.creation_revision ≤ kv.create_revision
  elected_oldest c name w kv e h n y m p = go (range w (predecessor_request c)).kvs refl
    where
      go :
          (kvs : List KeyValue)
          → (range w (predecessor_request c)).kvs ≡ kvs
          → c.creation_revision ≤ kv.create_revision
      go [] none = ground (
        arith,
        laws.none_selected w (predecessor_request c) kv none m,
        selects-predecessor_request c name kv e h,
      )
      go (j ∷ js) some =
          let alone =
            laws.limited w (predecessor_request c) j js (unfold predecessor_request in refl) some in
          absurd (
            ground (
              arith,
              on_range_request-elected (answer range w c) c j refl (some ∙ ap (λ xs. j ∷ xs) alone)
                  n,
            ))

  -- Two candidates of one election that are not elected and whose keys are both on the server,
  -- created by different revisions after the first, do not both become elected by answers at that
  -- state of the server.
  pub one_leader :
      (c d : Candidate) (name : List ℕ) (w : W)
      → c.election_prefix ≡ election_prefix name
      → d.election_prefix ≡ election_prefix name
      → c.candidate_key ≡ candidate_key name c.lease_id
      → d.candidate_key ≡ candidate_key name d.lease_id
      → 1 < c.creation_revision
      → 1 < d.creation_revision
      → Memᴰ (node c) (store w)
      → Memᴰ (node d) (store w)
      → c.creation_revision ≢ d.creation_revision
      → c.elected ≡ false
      → d.elected ≡ false
      → ((on_range_request (answer range w c) c).0.elected
          && (on_range_request (answer range w d) d).0.elected)
        ≡ false
  one_leader c d name w pc pd kc kd hc hd mc md differ nc nd =
      elim (Bool-cases (on_range_request (answer range w c) c).0.elected) [
        | inr loses ↦ rw loses
        | inl wins ↦ elim (Bool-cases (on_range_request (answer range w d) d).0.elected) [
          | inr loses ↦ rw (wins, loses)
          | inl both ↦
              let below =
                elected_oldest c name w (node d) pc hc nc wins md
                  (rw kd (candidate_key-has_prefix name d.lease_id)) in
              let above =
                elected_oldest d name w (node c) pd hd nd both mc
                  (rw kc (candidate_key-has_prefix name c.lease_id)) in
              absurd (differ (omega (arith, below, above)))
        ]
      ]

  -- When the candidate's key was created after the server's first revision, and the answer names a
  -- key, that is the candidate's immediate predecessor: a key of the election
  -- that is older than the candidate, and no other key of the election that is older than the
  -- candidate is younger than it.
  pub immediate_predecessor :
      (c : Candidate) (name : List ℕ) (w : W) (kv other : KeyValue) (kvs : List KeyValue)
      → c.election_prefix ≡ election_prefix name
      → 1 < c.creation_revision
      → (range w (predecessor_request c)).kvs ≡ kv ∷ kvs
      → Memᴰ other (store w)
      → has_prefix (election_prefix name) other.key ≡ true
      → other.create_revision < c.creation_revision
      → (has_prefix (election_prefix name) kv.key ≡ true)
        × (kv.create_revision < c.creation_revision)
        × (other.create_revision ≤ kv.create_revision)
  immediate_predecessor c name w kv other kvs e h some m p o =
      let req = predecessor_request c in
      let mine = laws.selected w req kv kvs some in
      let s = selects-predecessor_request c name kv e h in
      (
        ground (arith, mine, s),
        ground (arith, mine, s),
        laws.largest w req kv other kvs (unfold predecessor_request in refl)
            (unfold predecessor_request in refl) some m
            (ground (arith, selects-predecessor_request c name other e h)),
      )

  -- Unless `ops_` is shut down, an answer that names a key makes the candidate watch that one key,
  -- from the revision of the answer, and changes neither `elected()` nor its promise.
  pub watches_predecessor :
      (c : Candidate) (w : W) (kv : KeyValue) (kvs : List KeyValue)
      → c.ops.shutdown ≡ false
      → (range w (predecessor_request c)).kvs ≡ kv ∷ kvs
      → let d = (on_range_request (answer range w c) c).0 in
        (d.watched_keys ≡ insert_key kv.key c.watched_keys)
        × (d.queue
            ≡ c.queue
              ++ watch_create
                  (create_request (record {
                    key = kv.key;
                    range_end = [];
                    start_revision = (range w (predecessor_request c)).revision;
                    prev_kv = true;
                    progress_notify = false;
                  }))
                  kv.key
                  (range w (predecessor_request c)).revision
                ∷ [])
        × (d.elected ≡ c.elected)
        × (d.promise ≡ c.promise)
  watches_predecessor c w kv kvs o some =
      let req = predecessor_request c in
      let alone = laws.limited w req kv kvs (unfold predecessor_request in refl) some in
      on_range_request_one (answer range w c) c kv refl refl (some ∙ ap (λ xs. kv ∷ xs) alone) o
