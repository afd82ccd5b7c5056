-- ===== src/Experiments/Channels.antt =====
-- Which member of the cluster `pick_channel()` picks.
use gee_h.Prelude.{
  codes, ◌≡◌, refl, ap, Bool-cases, inl, inr, true, false, List, [], ◌∷◌, ◌++◌, Option, none, some,
  ℕ,
}
use gee_h.Effect.{Outcome, returns, throws, runtime_error}
use gee_h.Experiments.{Stubs}
use gee_h.Experiments.Cluster.{
  ClusterClient, leads, find_leader, ready_channel, adopt, pick_from, pick_channel,
}

module _ {W : Type 0} (stubs : Stubs W) where
  -- The targets were asked in order, from the first state to the second, and none of them leads.
  pub data Asked : W → List (List ℕ) → W → Type 0 where
    all_asked : {w : W} → Asked w [] w
    asks :
        {w v : W} {ts : List (List ℕ)} (t : List ℕ)
        → leads (stubs.maintenance_status t w).1 ≡ false
        → Asked (stubs.maintenance_status t w).0 ts v
        → Asked w (t ∷ ts) v

  -- What `pick_channel()` promises: it keeps a channel that is ready and asks nobody; or it moves to
  -- the first target that leads, and asks none behind it; or no target leads.
  pub data Picked (c : ClusterClient W) : ClusterClient W × Outcome (List ℕ) → Type 0 where
    kept : (t : List ℕ) → ready_channel stubs c ≡ some t → Picked c (c, returns t)
    moved :
        (t : List ℕ) (before behind : List (List ℕ)) (w : W)
        → ready_channel stubs c ≡ none
        → c.targets ≡ before ++ t ∷ behind
        → Asked c.world before w
        → leads (stubs.maintenance_status t w).1 ≡ true
        → Picked c (
          record c { current_channel = some t; world = (stubs.maintenance_status t w).0 },
          returns t,
        )
    failed :
        (w : W)
        → ready_channel stubs c ≡ none
        → Asked c.world c.targets w
        → Picked c (
          record c { world = w },
          throws (runtime_error (codes "Cannot find any working cluster member")),
        )

  -- How the loop ends.
  data Found (w : W) (ts : List (List ℕ)) : W × Option (List ℕ) → Type 0 where
    nobody : (v : W) → Asked w ts v → Found w ts (v, none)
    somebody :
        (t : List ℕ) (before behind : List (List ℕ)) (v : W)
        → ts ≡ before ++ t ∷ behind
        → Asked w before v
        → leads (stubs.maintenance_status t v).1 ≡ true
        → Found w ts ((stubs.maintenance_status t v).0, some t)

  found_later :
      (w : W) (t : List ℕ) (ts : List (List ℕ)) (r : W × Option (List ℕ))
      → leads (stubs.maintenance_status t w).1 ≡ false
      → Found (stubs.maintenance_status t w).0 ts r
      → Found w (t ∷ ts) r
  found_later w t ts r h (nobody v as_asked) = nobody v (asks t h as_asked)
  found_later w t ts r h (somebody u before behind v e as_asked l) =
      somebody u (t ∷ before) behind v (ap (λ us. t ∷ us) e) (asks t h as_asked) l

  find_leader-Found : (ts : List (List ℕ)) (w : W) → Found w ts (find_leader stubs ts w)
  unfolding find_leader
  find_leader-Found [] w = nobody w all_asked
  find_leader-Found (t ∷ ts) w = elim (Bool-cases (leads (stubs.maintenance_status t w).1)) [
    | inl yes_leads ↦ rw yes_leads (somebody t [] ts w refl all_asked yes_leads)
    | inr not_leads ↦
        rw not_leads
          (found_later w t ts _ not_leads (find_leader-Found ts (stubs.maintenance_status t w).0))
  ]

  adopt-Picked :
      (c : ClusterClient W) (r : W × Option (List ℕ))
      → ready_channel stubs c ≡ none
      → Found c.world c.targets r
      → Picked c (adopt stubs c r)
  adopt-Picked c r h (nobody v as_asked) = failed v h as_asked
  adopt-Picked c r h (somebody t before behind v e as_asked l) =
      moved t before behind v h e as_asked l

  -- `pick_channel()` keeps the current channel if it is ready, and asks nobody. Otherwise it asks the
  -- targets in order and moves to the first one that answers that it leads, and asks none behind it.
  -- It throws only if none of them leads, and then the channel stays as it was.
  pub pick_channel-Picked : (c : ClusterClient W) → Picked c (pick_channel stubs c)
  unfolding pick_channel
  pick_channel-Picked c = go (ready_channel stubs c) refl
    where
      go : (o : Option (List ℕ)) → ready_channel stubs c ≡ o → Picked c (pick_from stubs c o)
      go none unready = adopt-Picked c _ unready (find_leader-Found c.targets c.world)
      go (some t) ready = kept t ready
