-- ===== src/Candidate/Protocol/Leaders.antt =====
-- Who leads an election at any time.
use mathlib.Core.List.{Memᴰ}
use gee_h.Prelude.{
  ℕ, ◌≤◌, ◌<◌, ◌≡◌, refl, sym, ap, subst, ◌∙◌, ◌⊎◌, inl, inr, true, Bool-cases, List, Option, some,
  ◌==◌, ltb, arith, has_prefix,
}
use gee_h.Etcd.{KeyValue, RangeRequest, RangeResponse}
use gee_h.Candidate.{Candidate}
use gee_h.Candidate.Key.{election_prefix, candidate_key, candidate_key-has_prefix}
use gee_h.Candidate.Campaign.Node.{node}
use gee_h.Candidate.Query.{on_range_request}
use gee_h.Candidate.Election.{EtcdRange, answer, elected_oldest}
use gee_h.Candidate.History.{EtcdHistory}
use gee_h.Candidate.Protocol.{
  Ballot, put, Step, moves, enters, answers, fails, watcher_created, watcher_read, resigns,
  proclaims, alone, answers_with, Held, opens, goes,
}
use gee_h.Candidate.Protocol.Unelected.{
  IsSame, IsFollowed, on_range_request-IsSame, fails-IsFollowed, on_watch_create-IsFollowed,
  on_watch_read-IsFollowed, resigns-IsFollowed, proclaim-IsFollowed,
}

data Since {W : Type 0} (Later : W → W → Type 0) (w : W) : W → Type 0 where
  now : Since Later w w
  later : {v u : W} → Since Later w v → Later v u → Since Later w u

put-cases :
    (i j : ℕ) (c d : Candidate) (at : ℕ → Option Candidate)
    → put i c at j ≡ some d
    → (d ≡ c) ⊎ (at j ≡ some d)
put-cases i j c d at e = elim (Bool-cases (i == j)) [
  | inl b ↦ inl (sym (some_path c d (simp b at e)))
  | inr b ↦ inr (simp b at e)
]
  where
    some_path : (x y : Candidate) → some x ≡ some y → x ≡ y
    some_path x y p = cc

module _ {W : Type 0} (store : W → List KeyValue) (range : W → RangeRequest → RangeResponse)
    (revision : W → ℕ) (Later : W → W → Type 0) (name : List ℕ) (laws : EtcdRange store range)
    (times : EtcdHistory store revision Later) where
  -- At an earlier state whose revision was at least `n` already, no key of the election was older.
  record Leads (n : ℕ) (w : W) : Type 0 where
    then_server : W
    since : Since Later then_server w
    known_then : n ≤ revision then_server
    oldest_then :
        (kv : KeyValue)
        → Memᴰ kv (store then_server)
        → has_prefix (election_prefix name) kv.key ≡ true
        → n ≤ kv.create_revision

  record IsFair (w : W) (c : Candidate) : Type 0 where
    prefixed : c.election_prefix ≡ election_prefix name
    named : c.candidate_key ≡ candidate_key name c.lease_id
    late : 1 < c.creation_revision
    known : c.creation_revision ≤ revision w
    leads : c.elected ≡ true → Leads c.creation_revision w

  grows-Since : {w v : W} → Since Later w v → revision w ≤ revision v
  grows-Since now = omega arith
  grows-Since (later {v} {u} s l) = omega (arith, grows-Since s, times.grows v u l)

  was-Since :
      {w v : W} (kv : KeyValue)
      → Since Later w v
      → Memᴰ kv (store v)
      → kv.create_revision ≤ revision w
      → (old : KeyValue) × Memᴰ old (store w)
        × (old.key ≡ kv.key)
        × (old.create_revision ≡ kv.create_revision)
  was-Since kv now m h = (kv, m, refl, refl)
  was-Since kv (later {v} {u} s l) m h =
      let (old, there, key, created) =
        times.was_there v u kv l m (omega (arith, h, grows-Since s)) in
      let (older, was, key', created') = was-Since old s there (omega (arith, created, h)) in
      (older, was, key' ∙ key, created' ∙ created)

  followed-IsFair : (w : W) (c d : Candidate) → IsFollowed c d → IsFair w c → IsFair w d
  followed-IsFair w c d f v = record {
    prefixed = f.same.same_prefix ∙ v.prefixed;
    named = f.same.same_key ∙ v.named ∙ ap (candidate_key name) (sym f.same.same_lease);
    late = omega (arith, v.late, f.same.same_revision);
    known = omega (arith, v.known, f.same.same_revision);
    leads = λ e. subst (λ n. Leads n w) (sym f.same.same_revision) (v.leads (f.elected_before e));
  }

  moved-IsFair : (w v : W) (c : Candidate) → Later w v → IsFair w c → IsFair v c
  moved-IsFair w v c l f = record {
    prefixed = f.prefixed;
    named = f.named;
    late = f.late;
    known = omega (arith, f.known, times.grows w v l);
    leads = λ e.
        let led = f.leads e in
        record {
          then_server = led.then_server;
          since = later led.since l;
          known_then = led.known_then;
          oldest_then = led.oldest_then;
        };
  }

  answered-IsFair :
      (w : W) (c : Candidate) → IsFair w c → IsFair w (on_range_request (answer range w c) c).0
  answered-IsFair w c v = elim (Bool-cases c.elected) [
    | inl already ↦
        followed-IsFair w c (on_range_request (answer range w c) c).0
          (record { same = same; elected_before = λ e. already }) v
    | inr not_yet ↦ record {
      prefixed = same.same_prefix ∙ v.prefixed;
      named = same.same_key ∙ v.named ∙ ap (candidate_key name) (sym same.same_lease);
      late = omega (arith, v.late, same.same_revision);
      known = omega (arith, v.known, same.same_revision);
      leads = λ e. record {
        then_server = w;
        since = now;
        known_then = omega (arith, v.known, same.same_revision);
        oldest_then = λ kv m p. omega (
          arith,
          same.same_revision,
          elected_oldest store range laws c name w kv v.prefixed v.late not_yet e m p,
        );
      };
    }
  ]
    where
      same : IsSame c (on_range_request (answer range w c) c).0
      same = on_range_request-IsSame (answer range w c) c

  IsFairAt : Ballot W → Type 0
  IsFairAt b = (i : ℕ) (c : Candidate) → b.at i ≡ some c → IsFair b.server c

  put-IsFair :
      (b : Ballot W) (i : ℕ) (d : Candidate)
      → IsFair b.server d
      → IsFairAt b
      → IsFairAt (record b { at = put i d b.at })
  unfolding IsFairAt
  put-IsFair b i d v all j c e = elim (put-cases i j d c b.at e) [
    | inl same ↦ subst (IsFair b.server) (sym same) v
    | inr there ↦ all j c there
  ]

  Step-IsFair : {b d : Ballot W} → Step store range Later name b d → IsFairAt b → IsFairAt d
  unfolding IsFairAt
  Step-IsFair {b} (moves v l) all = λ i c e. moved-IsFair b.server v c l (all i c e)
  Step-IsFair {b} (enters i c n p k h m) all =
      put-IsFair b i c
        (record {
          prefixed = p;
          named = k;
          late = h;
          known = times.created_before b.server (node c) m;
          leads = λ e. absurd (ground arith);
        })
        all
  Step-IsFair {b} (answers i c e) all =
      put-IsFair b i (on_range_request (answer range b.server c) c).0
        (answered-IsFair b.server c (all i c e)) all
  Step-IsFair {b} (fails i c op e h) all =
      put-IsFair b i _ (followed-IsFair b.server c _ (fails-IsFollowed op c h) (all i c e)) all
  Step-IsFair {b} (watcher_created i c ok k r e) all =
      put-IsFair b i _
        (followed-IsFair b.server c _ (on_watch_create-IsFollowed ok k r c) (all i c e)) all
  Step-IsFair {b} (watcher_read i c ok s k r e) all =
      put-IsFair b i _
        (followed-IsFair b.server c _ (on_watch_read-IsFollowed ok s k r c) (all i c e)) all
  Step-IsFair {b} (proclaims i c value completion e) all =
      put-IsFair b i _
        (followed-IsFair b.server c _
          (proclaim-IsFollowed (answers_with completion) value (alone c)) (all i c e))
        all
  Step-IsFair {b} (resigns i c e) all =
      put-IsFair b i _ (followed-IsFair b.server c _ (resigns-IsFollowed c) (all i c e)) all

  Held-IsFair : {b : Ballot W} → Held store range Later name b → IsFairAt b
  unfolding IsFairAt
  Held-IsFair (opens w) = λ i c e. absurd (ground arith)
  Held-IsFair (goes h s) = Step-IsFair s (Held-IsFair h)

  -- In every state of an election, however its steps interleave, no key of the election on the server
  -- is older than a candidate that is elected.
  pub elected-oldest_now :
      (b : Ballot W) (i : ℕ) (c : Candidate) (kv : KeyValue)
      → Held store range Later name b
      → b.at i ≡ some c
      → c.elected ≡ true
      → Memᴰ kv (store b.server)
      → has_prefix (election_prefix name) kv.key ≡ true
      → c.creation_revision ≤ kv.create_revision
  unfolding IsFairAt
  elected-oldest_now b i c kv h e won m p =
      let led = (Held-IsFair h i c e).leads won in
      elim (Bool-cases (ltb kv.create_revision c.creation_revision)) [
        | inr young ↦ ground arith
        | inl older ↦
            let (old, was, key, created) =
              was-Since kv led.since m (ground (arith, led.known_then)) in
            omega (
              arith,
              created,
              led.oldest_then old was (ap (has_prefix (election_prefix name)) key ∙ p),
            )
      ]

  -- In every state of an election two elected candidates whose keys are both on the server have keys
  -- that were created by the same revision.
  pub single_leader :
      (b : Ballot W) (i j : ℕ) (c d : Candidate)
      → Held store range Later name b
      → b.at i ≡ some c
      → b.at j ≡ some d
      → c.elected ≡ true
      → d.elected ≡ true
      → Memᴰ (node c) (store b.server)
      → Memᴰ (node d) (store b.server)
      → c.creation_revision ≡ d.creation_revision
  unfolding IsFairAt
  single_leader b i j c d h ec ed wc wd mc md =
      let c_named = (Held-IsFair h i c ec).named in
      let d_named = (Held-IsFair h j d ed).named in
      omega (
        arith,
        elected-oldest_now b i c (node d) h ec wc md
            (rw d_named (candidate_key-has_prefix name d.lease_id)),
        elected-oldest_now b j d (node c) h ed wd mc
            (rw c_named (candidate_key-has_prefix name c.lease_id)),
      )
