-- ===== src/Experiments/Leases.antt =====
-- The keys and the leases of the nodes of experiments/watcher_and_compaction.cpp.
use mathlib.Core.List.{append_assoc}
use gee_h.Prelude.{
  codes, ℕ, ◌≡◌, ap, ◌∙◌, Bool, true, false, List, [], ◌∷◌, ◌++◌, arith, has_prefix,
}
use gee_h.Effect.{M, Outcome, and_then, ◌>>=◌, ◌>>◌, pure, returns, throws}
use gee_h.Errors.{ok, check_grpc_status}
use gee_h.Etcd.{KeyValue}
use gee_h.PrefixEnd.Range.{in_range, in_range-suc}
use gee_h.Candidate.Key.{hex}
use gee_h.Experiments.{PutRequest}
use gee_h.Experiments.Compaction.{
  Stubs, Experiment, make_key, create_watcher, create_node, update_node, delete_node, update_first,
  delete_first, change_nodes,
}

has_prefix-append : (xs ys : List ℕ) (b : ℕ) → has_prefix (xs ++ b ∷ []) (xs ++ b ∷ ys) ≡ true
has_prefix-append [] ys b = ground arith
has_prefix-append (x ∷ xs) ys b = ground (arith, has_prefix-append xs ys b)

-- The range of both watchers has the keys of all nodes, whose names start with a slash.
watches-make_key :
    (prefix name : List ℕ) (lease revision : ℕ)
    → let create = create_watcher prefix revision in
      in_range create.key create.range_end (make_key prefix (b'/' ∷ name) lease) ≡ true
unfolding create_watcher make_key
watches-make_key prefix name lease revision =
    in_range-suc prefix (prefix ++ (b'/' ∷ name) ++ b'/' ∷ hex lease) b'/'
    ∙ ap (has_prefix (prefix ++ b'/' ∷ [])) (append_assoc prefix (b'/' ∷ name) (b'/' ∷ hex lease))
    ∙ has_prefix-append prefix (name ++ b'/' ∷ hex lease) b'/'

abbrev is_returns : {A : Type 0} → Outcome A → Bool
is_returns (returns a) = true
is_returns (throws e) = false

module _ {W : Type 0} where
  -- Where the method returns, the server's state has the property.
  abbrev Ensures : {A : Type 0} → (W → Type 0) → M (Experiment W) A → Type 0
  Ensures P m = (c : Experiment W) → is_returns (m c).1 ≡ true → P (m c).0.world

  and_then-ensures :
      {A B : Type 0} (P : W → Type 0) (p : Experiment W × Outcome A) (f : A → M (Experiment W) B)
      → ((a : A) → Ensures P (f a))
      → is_returns (and_then p f).1 ≡ true
      → P (and_then p f).0.world
  and_then-ensures P (c, returns a) f h r = h a c r
  and_then-ensures P (c, throws e) f h r = absurd (ground arith)

  -- A property that a method ensures stays when only a value is computed from its result.
  and_then-pure :
      {A B : Type 0} (P : W → Type 0) (p : Experiment W × Outcome A) (g : A → B)
      → (is_returns p.1 ≡ true → P p.0.world)
      → is_returns (and_then p (λ a. pure (g a))).1 ≡ true
      → P (and_then p (λ a. pure (g a))).0.world
  and_then-pure P (c, returns a) g h r = h r
  and_then-pure P (c, throws e) g h r = absurd (ground arith)

module _ {W : Type 0} (stubs : Stubs W) (lease_of : W → List ℕ → ℕ)
    (puts : (req : PutRequest) (w : W)
      → ok (stubs.put req w).1.status ≡ true
      → lease_of (stubs.put req w).0 req.key ≡ req.lease) where
  update_node-lease :
      (key value : List ℕ) (lease : ℕ)
      → Ensures (λ w. lease_of w key ≡ 0) (update_node stubs key lease value)
  unfolding update_node check_grpc_status
  update_node-lease key value lease c r =
      let req : PutRequest = record { key = key; value = value; lease = 0 } in
      ground (arith, puts req c.world)

  delete_first-lease :
      (key0 key1 : List ℕ) (lease : ℕ)
      → Ensures (λ w. lease_of w key1 ≡ 0) (delete_first stubs key0 key1 lease)
  unfolding delete_first
  delete_first-lease key0 key1 lease c =
      and_then-ensures (λ w. lease_of w key1 ≡ 0) (delete_node stubs key0 c)
        (λ revision. update_node stubs key1 lease (codes "node1:1") >> pure revision)
        (λ revision d.
          and_then-pure (λ w. lease_of w key1 ≡ 0)
            (update_node stubs key1 lease (codes "node1:1") d) (λ _. revision)
            (update_node-lease key1 (codes "node1:1") lease d))

  -- A put gives its key the lease of the request. So when the nodes have been changed, the second one
  -- has no lease any more, whatever lease the session has: it stays when the session ends.
  pub change_nodes-lease :
      (prefix : List ℕ) (lease : ℕ) (c : Experiment W)
      → is_returns (change_nodes stubs prefix lease c).1 ≡ true
      → lease_of
          (change_nodes stubs prefix lease c).0.world
          (make_key prefix (codes "/node1") lease)
        ≡ 0
  unfolding change_nodes
  change_nodes-lease prefix lease c =
      let key0 = make_key prefix (codes "/node0") lease in
      let key1 = make_key prefix (codes "/node1") lease in
      let Unleased : W → Type 0 = λ w. lease_of w key1 ≡ 0 in
      let last : KeyValue → M (Experiment W) (ℕ × ℕ) =
        λ node0. delete_first stubs key0 key1 lease >>= λ r. pure (node0.create_revision, r) in
      let updates : KeyValue → M (Experiment W) (ℕ × ℕ) =
        λ node0. update_first stubs key0 lease >> last node0 in
      let second : KeyValue → M (Experiment W) (ℕ × ℕ) =
        λ node0. create_node stubs key1 lease (codes "node1:0") >>= λ _. updates node0 in
      and_then-ensures Unleased (create_node stubs key0 lease (codes "node0:0") c) second
        (λ node0 d.
          and_then-ensures Unleased (create_node stubs key1 lease (codes "node1:0") d)
            (λ _. updates node0)
            (λ _ e.
              and_then-ensures Unleased (update_first stubs key0 lease e) (λ _. last node0)
                (λ _ f.
                  and_then-pure Unleased (delete_first stubs key0 key1 lease f)
                    (λ r. (node0.create_revision, r)) (delete_first-lease key0 key1 lease f))))
