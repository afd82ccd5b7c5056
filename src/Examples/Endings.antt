-- ===== src/Examples/Endings.antt =====
-- The programs end after the user's interrupt.
use gee_h.Prelude.{
  ℕ, zero, suc, ◌+◌, ◌≤◌, ◌<◌, ◌≡◌, ◌≢◌, refl, ap, ◌∙◌, sym, Bool-cases, inl, inr, Bool, true,
  false, ◌||◌, List, [], ◌∷◌, Option, none, some, arith,
}
use gee_h.Effect.{Outcome, returns, throws, Completion}
use gee_h.Etcd.{LeaseGrantRequest, LeaseGrantResponse, TxnRequest, TxnResponse}
use gee_h.Elections.{LeaderElection, Site, leader_election, campaign}
use gee_h.Examples.{sleep_until}
use gee_h.Examples.Join.{
  is_ready, result_of, idle, decided, await_result, take_part, with_election, main,
}

abbrev pub is_some {ℓ} : {A : Type ℓ} → Option A → Bool
is_some none = false
is_some (some a) = true

false-ne-true : ◌≢◌ {A = Bool} false true
false-ne-true e = ground arith

module _ {S : Type 0} (background : ℕ → S → S) (test : ℕ → S → Bool) where
  -- A loop whose test holds behind the sleep `k` ends there or before, with fuel for these sleeps.
  pub sleep_until-ends :
      (fuel n k : ℕ) (s : S)
      → ((t : S) → test k t ≡ true)
      → n ≤ k
      → k < n + fuel
      → (m : ℕ) × (t : S) × (m ≤ k) × (sleep_until background test fuel n s ≡ some (suc m, t))
  unfolding sleep_until
  sleep_until-ends zero n k s h low high = absurd (omega arith)
  sleep_until-ends (suc fuel) n k s h low high =
      let t = background n s in
      elim (Bool-cases (test n t)) [
        | inl holds ↦ (n, t, low, simp holds refl)
        | inr not_yet ↦
            let later : n ≢ k = λ e. false-ne-true (sym not_yet ∙ ap (λ j. test j t) e ∙ h t) in
            let (m, u, bound, ends) =
              sleep_until-ends fuel (suc n) k t h (omega (arith, later)) (omega arith) in
            (m, u, bound, simp not_yet ends)
      ]

module _ {W : Type 0} (call : W → TxnRequest → W × Completion TxnResponse)
    (background : ℕ → Site W → Site W) (interrupted : ℕ → Bool) (completion : Completion (Unit {0}))
    (k : ℕ) (stopped : interrupted k ≡ true) where
  idle-ends :
      (m : ℕ) (texts : List (List ℕ)) (s : Site W)
      → m ≤ k
      → is_some
          (idle call background interrupted completion (suc k) (suc m) texts s (interrupted m))
        ≡ true
  unfolding idle
  idle-ends m texts s bound = elim (Bool-cases (interrupted m)) [
    | inl flag ↦ simp flag refl
    | inr running ↦
        let later : m ≢ k = λ e. false-ne-true (sym running ∙ ap interrupted e ∙ stopped) in
        let (n, t, _, ends) =
          sleep_until-ends background (λ j u. interrupted j) (suc k) (suc m) k s (λ u. stopped)
            (omega (arith, later)) (omega arith) in
        simp (running, ends) refl
  ]

  decided-ends :
      (m : ℕ) (s : Site W) (result : Option Bool)
      → m ≤ k
      → is_some
          (decided call background interrupted completion (suc k) (suc m) s (interrupted m) result)
        ≡ true
  unfolding decided
  decided-ends m s none bound = idle-ends m [] s bound
  decided-ends m s (some true) bound = idle-ends m _ s bound
  decided-ends m s (some false) bound = refl

  await_result-ends :
      (p : Site W × Outcome (Unit {0}))
      → is_some (await_result call background interrupted completion (suc k) p) ≡ true
  unfolding await_result
  await_result-ends (s, throws e) = refl
  await_result-ends (s, returns u) =
      let (m, t, bound, ends) =
        sleep_until-ends background (λ j t. interrupted j || is_ready (result_of t)) (suc k) 0 k s
          (λ t. simp stopped refl) (omega arith) (omega arith) in
      simp ends (decided-ends m t (result_of t) bound)

  with_election-ends :
      (campaign_ok : Bool) (w : W) (o : Outcome LeaderElection)
      → is_some (with_election call background interrupted completion (suc k) campaign_ok w o)
        ≡ true
  unfolding take_part
  with_election-ends campaign_ok w (throws e) = refl
  with_election-ends campaign_ok w (returns l) =
      await_result-ends (campaign call campaign_ok (record { election = l; server = w }))

  -- If the user interrupts `join_election` in the sleep `k`, the program ends, with at most `k + 1`
  -- rounds in each of its loops: whether the candidate is elected, waits, is aborted or cannot even
  -- begin, and whatever the completion queue does in the sleeps.
  pub main-ends :
      (grant : LeaseGrantRequest → Completion LeaseGrantResponse) (session_ok campaign_ok : Bool)
      (now : ℕ) (arguments : List (List ℕ)) (w : W)
      → is_some (
          main call background interrupted completion grant session_ok campaign_ok now
            (suc k)
            arguments
            w)
        ≡ true
  unfolding main
  main-ends grant session_ok campaign_ok now [] w = refl
  main-ends grant session_ok campaign_ok now (a ∷ []) w = refl
  main-ends grant session_ok campaign_ok now (a ∷ b ∷ []) w =
      with_election-ends campaign_ok w (leader_election grant session_ok now a b 5000 0)
  main-ends grant session_ok campaign_ok now (a ∷ b ∷ c ∷ []) w =
      with_election-ends campaign_ok w (leader_election grant session_ok now a b 5000 0)
  main-ends grant session_ok campaign_ok now (a ∷ b ∷ c ∷ d ∷ as_given) w = refl
