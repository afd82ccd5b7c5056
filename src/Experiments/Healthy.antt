-- ===== src/Experiments/Healthy.antt =====
-- The experiment with failures, on a cluster that has none.
use gee_h.Prelude.{
  codes, ◌≡◌, refl, Bool, true, false, List, [], ◌∷◌, Option, none, some, ℕ, zero, suc, arith, ap,
  ◌∙◌, sym, subst,
}
use gee_h.Effect.{M, Outcome, and_then, ◌>>=◌, ◌>>◌, returns, throws}
use gee_h.Errors.{ok, check_grpc_status}
use gee_h.Experiments.{PutRequest, Stubs}
use gee_h.Experiments.Cluster.{
  ClusterClient, new, find_leader, ready_among, adopt, pick_from, pick_channel, create_lease,
  create_with_lease, create_node, created, update_node,
}
use gee_h.Experiments.Failure.{
  fails, count_failures, exit_status, expect_failures, wait_for_enter, update_nodes, script, main,
  make_key,
}

abbrev is_returns : {A : Type 0} → Outcome A → Bool
is_returns (returns a) = true
is_returns (throws e) = false

exit_status_thrown : (o : Outcome (Unit {0})) → is_returns o ≡ false → exit_status o ≡ 1
exit_status_thrown (returns _) h = absurd (ground arith)
exit_status_thrown (throws e) h = refl

module _ {W : Type 0} where
  -- A channel was picked before.
  abbrev IsConnected : ClusterClient W → Type 0
  IsConnected c = (t : List ℕ) × (c.current_channel ≡ some t)

  abbrev Keeps : {A : Type 0} → M (ClusterClient W) A → Type 0
  Keeps m = (c : ClusterClient W) → IsConnected c → IsConnected (m c).0

  -- From a state with a channel, the method throws.
  abbrev Throws : {A : Type 0} → M (ClusterClient W) A → Type 0
  Throws m = (c : ClusterClient W) → IsConnected c → is_returns (m c).1 ≡ false

  and_then-IsConnected :
      {A B : Type 0} (p : ClusterClient W × Outcome A) (f : A → M (ClusterClient W) B)
      → IsConnected p.0
      → ((a : A) → Keeps (f a))
      → IsConnected (and_then p f).0
  and_then-IsConnected (c, returns a) f h k = k a c h
  and_then-IsConnected (c, throws e) f h k = h

  and_then-Throws :
      {A B : Type 0} (p : ClusterClient W × Outcome A) (f : A → M (ClusterClient W) B)
      → IsConnected p.0
      → ((a : A) → Throws (f a))
      → is_returns (and_then p f).1 ≡ false
  and_then-Throws (c, returns a) f h k = k a c h
  and_then-Throws (c, throws e) f h k = refl

  bind-Throws :
      {A B : Type 0} (m : M (ClusterClient W) A) (f : A → M (ClusterClient W) B)
      → Keeps m
      → ((a : A) → Throws (f a))
      → Throws (m >>= f)
  bind-Throws m f h k c v = and_then-Throws (m c) f (h c v) k

  -- The cluster never loses a connection, and accepts every put.
  module _ (stubs : Stubs W) (ready : (t : List ℕ) (w : W) → stubs.is_ready t w ≡ true)
      (accepts : (t : List ℕ) (req : PutRequest) (w : W)
        → ok (stubs.put t req w).1.status ≡ true) where
    pick_connected :
        (c : ClusterClient W) (t : List ℕ)
        → c.current_channel ≡ some t
        → pick_channel stubs c ≡ (c, returns t)
    unfolding pick_channel
    pick_connected c t e =
        ap (λ o. pick_from stubs c (ready_among stubs o c.world)) e ∙ simp (ready t c.world) refl

    create_lease-Keeps : Keeps (create_lease stubs)
    unfolding create_lease check_grpc_status
    create_lease-Keeps c (t, e) = (t, simp (pick_connected c t e) (ground arith))

    create_with_lease-Keeps :
        (channel key value : List ℕ) (lease_id : ℕ)
        → Keeps (create_with_lease stubs channel key value lease_id)
    unfolding create_with_lease created check_grpc_status
    create_with_lease-Keeps channel key value lease_id c (t, e) = (t, ground arith)

    create_node-Keeps : (key value : List ℕ) → Keeps (create_node stubs key value)
    unfolding create_node
    create_node-Keeps key value c (t, e) =
        let picked : create_node stubs key value c
            ≡ and_then (create_lease stubs c) (create_with_lease stubs t key value) =
          ap (λ p. and_then p (λ u. create_lease stubs >>= create_with_lease stubs u key value))
            (pick_connected c t e) in
        subst (λ p. IsConnected p.0) (sym picked)
          (and_then-IsConnected (create_lease stubs c) (create_with_lease stubs t key value)
            (create_lease-Keeps c (t, e)) (create_with_lease-Keeps t key value))

    update_node-returns :
        (key value : List ℕ) (c : ClusterClient W)
        → IsConnected c
        → (d : ClusterClient W) × IsConnected d × (update_node stubs key value c ≡ (d, returns tt))
    unfolding update_node check_grpc_status
    update_node-returns key value c (t, e) =
        let req : PutRequest = record { key = key; value = value; lease = 0 } in
        (
          record c { world = (stubs.put t req c.world).0 },
          (t, e),
          simp (pick_connected c t e, accepts t req c.world) refl,
        )

    -- No call fails, so none is counted.
    count_failures-returns :
        (n count : ℕ) (key value : List ℕ) (c : ClusterClient W)
        → IsConnected c
        → (d : ClusterClient W) × IsConnected d
          × (count_failures n (update_node stubs key value) count c ≡ (d, returns count))
    unfolding count_failures fails
    count_failures-returns zero count key value c v = (c, v, refl)
    count_failures-returns (suc n) count key value c v =
        let (d, w, e) = update_node-returns key value c v in
        let (f, x, g) = count_failures-returns n count key value d w in (f, x, simp e g)

    module _ (driver : ℕ → W → W × Bool) where
      wait_for_enter-Keeps : (n : ℕ) → Keeps (wait_for_enter stubs driver n)
      unfolding wait_for_enter
      wait_for_enter-Keeps n c v = v

      expect_failures-Throws :
          (key0 key1 : List ℕ) → Throws (expect_failures stubs driver key0 key1)
      unfolding expect_failures
      expect_failures-Throws key0 key1 c v =
          let (d, w, e) = count_failures-returns 5 0 key1 (codes "node1:2") c v in simp e refl

      update_nodes-Throws : (key0 key1 : List ℕ) → Throws (update_nodes stubs driver key0 key1)
      unfolding update_nodes fails
      update_nodes-Throws key0 key1 c v =
          let (d, w, e) = update_node-returns key0 (codes "node0:1") c v in
          simp e (
            and_then-Throws (wait_for_enter stubs driver 2 d)
              (λ _. expect_failures stubs driver key0 key1) (wait_for_enter-Keeps 2 d w)
              (λ _. expect_failures-Throws key0 key1))

      starts-Throws :
          (c : ClusterClient W) (r : W × Option (List ℕ))
          (f : List ℕ → M (ClusterClient W) (Unit {0}))
          → ((t : List ℕ) → Throws (f t))
          → is_returns (and_then (adopt stubs c r) f).1 ≡ false
      starts-Throws c (w, none) f h = refl
      starts-Throws c (w, some t) f h =
          h t (record c { current_channel = some t; world = w }) (t, refl)

      script-Throws :
          (prefix : List ℕ) (targets : List (List ℕ)) (w : W)
          → is_returns (script stubs driver prefix (new targets w)).1 ≡ false
      unfolding script pick_channel new
      script-Throws prefix targets w =
          let key0 = make_key prefix (codes "node0") in
          let key1 = make_key prefix (codes "node1") in
          let updates = update_nodes stubs driver key0 key1 in
          let waits = wait_for_enter stubs driver 1 >> updates in
          let second = create_node stubs key1 (codes "node1:0") >>= λ _. waits in
          let first = create_node stubs key0 (codes "node0:0") >>= λ _. second in
          starts-Throws (new targets w) (find_leader stubs targets w)
            (λ _. wait_for_enter stubs driver 0 >> first)
            (λ _.
              bind-Throws (wait_for_enter stubs driver 0) (λ _. first) (wait_for_enter-Keeps 0)
                (λ _.
                  bind-Throws (create_node stubs key0 (codes "node0:0")) (λ _. second)
                    (create_node-Keeps key0 (codes "node0:0"))
                    (λ _.
                      bind-Throws (create_node stubs key1 (codes "node1:0")) (λ _. waits)
                        (create_node-Keeps key1 (codes "node1:0"))
                        (λ _.
                          bind-Throws (wait_for_enter stubs driver 1) (λ _. updates)
                            (wait_for_enter-Keeps 1) (λ _. update_nodes-Throws key0 key1)))))

      -- On a cluster whose channels stay ready and that accepts every put, the program ends with the
      -- exit status 1, whatever its arguments are and whatever the cluster does to the other calls
      -- and between the calls: it succeeds only where puts fail.
      pub main-fails : (arguments : List (List ℕ)) (w : W) → (main stubs driver arguments w).1 ≡ 1
      unfolding main
      main-fails [] w = refl
      main-fails (prefix ∷ endpoints) w = exit_status_thrown _ (script-Throws prefix _ w)
