-- ===== src/Experiments/Failure.antt =====
-- `main()` of experiments/cluster_failure_behavior.cpp. While the program waits for the user, the
-- cluster changes as it likes.
use gee_h.Prelude.{
  codes, ℕ, zero, suc, ◌+◌, Bool, true, false, not, List, [], ◌∷◌, ◌++◌, if◌then◌else◌, ◌==◌,
}
use gee_h.Effect.{M, Outcome, ◌>>=◌, ◌>>◌, pure, throw, when, returns, throws, runtime_error}
use gee_h.Experiments.{Stubs}
use gee_h.Experiments.Cluster.{
  ClusterClient, new, pick_channel, create_node, update_node, delete_node,
}

-- `make_key`
unfoldable pub make_key : List ℕ → List ℕ → List ℕ
make_key prefix name = prefix ++ b'/' ∷ name

abbrev pub failed_of : {S : Type 0} → S × Outcome (Unit {0}) → S × Outcome Bool
failed_of (s, returns _) = (s, returns false)
failed_of (s, throws e) = (s, returns true)

-- `try { ... } catch(...)`: whether it threw.
unfoldable pub fails : {S : Type 0} → M S (Unit {0}) → M S Bool
fails m s = failed_of (m s)

-- The loop that counts the exceptions in `n` calls.
unfoldable pub count_failures : {S : Type 0} → ℕ → M S (Unit {0}) → ℕ → M S ℕ
unfolding fails
count_failures zero m count = pure count
count_failures (suc n) m count = do
  failed ← fails m
  count_failures n m (if failed then count + 1 else count)

-- The exit status, and what it was that ended `main()`.
abbrev pub exit_status : Outcome (Unit {0}) → ℕ
exit_status (returns _) = 0
exit_status (throws e) = 1

-- `endpoints`
abbrev endpoints_of : List (List ℕ) → List (List ℕ)
endpoints_of [] = codes "localhost:22379" ∷ []
endpoints_of (e ∷ es) = e ∷ es

-- `driver n` is what happens to the cluster while the program waits for the n-th line of input, and
-- whether that line comes; if not, the stream raises an exception, whose text is left out.
module _ {W : Type 0} (stubs : Stubs W) (driver : ℕ → W → W × Bool) where
  unfoldable pub wait_for_enter : ℕ → M (ClusterClient W) (Unit {0})
  wait_for_enter n c =
      let (w, line) = driver n c.world in
      (record c { world = w }, if line then returns tt else throws (runtime_error []))

  -- From the counter of the failures to the end.
  unfoldable pub expect_failures : List ℕ → List ℕ → M (ClusterClient W) (Unit {0})
  unfolding wait_for_enter count_failures update_node delete_node
  expect_failures key0 key1 = do
    count ← count_failures 5 (update_node stubs key1 (codes "node1:2")) 0
    when (not (count == 5)) (throw (runtime_error (codes "expected 5 failures")))
    wait_for_enter 3
    _ ← delete_node stubs key1
    _ ← delete_node stubs key0
    pure tt

  -- From the first update to the end.
  unfoldable pub update_nodes : List ℕ → List ℕ → M (ClusterClient W) (Unit {0})
  unfolding wait_for_enter fails update_node expect_failures
  update_nodes key0 key1 = do
    failed ← fails (update_node stubs key0 (codes "node0:1"))
    when failed (update_node stubs key0 (codes "node0:1"))
    wait_for_enter 2
    expect_failures key0 key1

  unfoldable pub script : List ℕ → M (ClusterClient W) (Unit {0})
  unfolding pick_channel create_node make_key wait_for_enter update_nodes
  script prefix = do
    _ ← pick_channel stubs
    wait_for_enter 0
    _ ← create_node stubs (make_key prefix (codes "node0")) (codes "node0:0")
    _ ← create_node stubs (make_key prefix (codes "node1")) (codes "node1:0")
    wait_for_enter 1
    update_nodes (make_key prefix (codes "node0")) (make_key prefix (codes "node1"))

  -- The arguments behind the program's name: the prefix and the endpoints.
  unfoldable pub main : List (List ℕ) → W → W × ℕ
  unfolding script new
  main [] w = (w, 1)
  main (prefix ∷ endpoints) w =
      let (c, r) = script prefix (new (endpoints_of endpoints) w) in (c.world, exit_status r)
