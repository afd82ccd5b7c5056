-- ===== src/Candidate/History.antt =====
-- Leaders at different times: the elections of two candidates on a server that changes in between.
use mathlib.Core.List.{Memᴰ}
use gee_h.Prelude.{ℕ, ◌≤◌, ◌<◌, ◌≡◌, ◌≢◌, sym, Bool-cases, inl, inr, true, false, List, arith}
use gee_h.Etcd.{KeyValue, RangeRequest, RangeResponse}
use gee_h.Candidate.{Candidate}
use gee_h.Candidate.Key.{election_prefix, candidate_key, candidate_key-has_prefix}
use gee_h.Candidate.Campaign.Node.{node}
use gee_h.Candidate.Query.{on_range_request}
use gee_h.Candidate.Election.{EtcdRange, answer, elected_oldest}

-- What etcd documents of its revisions: every change of the store has a larger one, and the
-- creation revision of a key is the revision at which the key was created last.
pub record EtcdHistory {W : Type 0} (store : W → List KeyValue) (revision : W → ℕ)
    (Later : W → W → Type 0) : Type 0 where
  pub grows : (w v : W) → Later w v → revision w ≤ revision v
  -- A key is not younger than the store that holds it.
  pub created_before : (w : W) (kv : KeyValue) → Memᴰ kv (store w) → kv.create_revision ≤ revision w
  -- A key that was created before an earlier state, and still is there, was there at that state.
  pub was_there :
      (w v : W) (kv : KeyValue)
      → Later w v
      → Memᴰ kv (store v)
      → kv.create_revision ≤ revision w
      → (old : KeyValue) × Memᴰ old (store w)
        × (old.key ≡ kv.key)
        × (old.create_revision ≡ kv.create_revision)

module _ {W : Type 0} (store : W → List KeyValue) (range : W → RangeRequest → RangeResponse)
    (revision : W → ℕ) (Later : W → W → Type 0) (laws : EtcdRange store range)
    (times : EtcdHistory store revision Later) where
  -- While the key of a candidate that was elected at some state of the server still is on the server,
  -- no other candidate of the election, whose key is there too, becomes elected at a later state. Both
  -- are not elected before their answers, and their keys were created by different revisions after
  -- the first.
  pub no_other_leader :
      (c d : Candidate) (name : List ℕ) (w v : W) (mine : KeyValue)
      → c.election_prefix ≡ election_prefix name
      → d.election_prefix ≡ election_prefix name
      → c.candidate_key ≡ candidate_key name c.lease_id
      → d.candidate_key ≡ candidate_key name d.lease_id
      → 1 < c.creation_revision
      → 1 < d.creation_revision
      → c.creation_revision ≢ d.creation_revision
      → c.elected ≡ false
      → d.elected ≡ false
      → Memᴰ (node c) (store w)
      → (on_range_request (answer range w c) c).0.elected ≡ true
      → Later w v
      → Memᴰ mine (store v)
      → mine.key ≡ c.candidate_key
      → mine.create_revision ≡ c.creation_revision
      → Memᴰ (node d) (store v)
      → (on_range_request (answer range v d) d).0.elected ≡ false
  no_other_leader c d name w v mine pc pd kc kd hc hd differ nc nd there wins later still k r
        other =
      elim (Bool-cases (on_range_request (answer range v d) d).0.elected) [
        | inr loses ↦ loses
        | inl both ↦ absurd (differ (sym (omega (arith, below both, above both))))
      ]
    where
      below :
          (on_range_request (answer range v d) d).0.elected ≡ true
          → d.creation_revision ≤ c.creation_revision
      below both = omega (
        arith,
        r,
        elected_oldest store range laws d name v mine pd hd nd both still
            (rw (k, kc) (candidate_key-has_prefix name c.lease_id)),
      )

      above :
          (on_range_request (answer range v d) d).0.elected ≡ true
          → c.creation_revision ≤ d.creation_revision
      above both =
          let (old, was, same_key, same_revision) =
            times.was_there w v (node d) later other
              (omega (arith, below both, times.created_before w (node c) there)) in
          omega (
            arith,
            same_revision,
            elected_oldest store range laws c name w old pc hc nc wins was
                (rw (same_key, kd) (candidate_key-has_prefix name d.lease_id)),
          )
