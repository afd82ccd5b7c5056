-- ===== src/Candidate/Protocol.antt =====
-- An election as a whole: any number of candidates and one server, whose state goes on by itself.
pub mod Unelected
pub mod Leaders
use mathlib.Core.List.{Memᴰ}
use gee_h.Prelude.{
  ℕ, ◌≤◌, ◌<◌, ◌≡◌, refl, sym, ap, ◌∙◌, ◌⊎◌, inl, inr, Bool, true, false, ◌&&◌, Bool-cases, List,
  [], ◌∷◌, Option, none, some, if◌then◌else◌, ◌==◌, arith, has_prefix,
}
use gee_h.Effect.{Completion}
use gee_h.Etcd.{KeyValue, RangeRequest, RangeResponse, WatchResponse, TxnRequest, TxnResponse}
use gee_h.Candidate.{Candidate, election_result}
use gee_h.Candidate.Key.{election_prefix, candidate_key, candidate_key-has_prefix}
use gee_h.Candidate.Campaign.Node.{node}
use gee_h.Candidate.Query.{
  on_range_request, query_predecessor, watch_all, create_watcher, check_election_over_maybe,
}
use gee_h.Counter.{async_op_start, async_op_done}
use gee_h.Candidate.Campaign.{World, proclaim}
use gee_h.Candidate.Watch.{on_watch_create, on_watch_read}
use gee_h.Candidate.Election.{EtcdRange, answer, elected_oldest}
use gee_h.Candidate.History.{EtcdHistory}

-- The server, and the candidates by their numbers.
pub record Ballot (W : Type 0) : Type 0 where
  pub server : W
  pub at : ℕ → Option Candidate

abbrev pub put : ℕ → Candidate → (ℕ → Option Candidate) → ℕ → Option Candidate
put i c at j = if i == j then some c else at j

-- The candidate, and a call that is answered with this completion.
abbrev pub alone : Candidate → World (Unit {0})
alone c = record { candidate = c; server = tt }

abbrev pub answers_with :
    Completion TxnResponse → Unit {0} → TxnRequest → Unit {0} × Completion TxnResponse
answers_with completion s req = (s, completion)

module _ {W : Type 0} (store : W → List KeyValue) (range : W → RangeRequest → RangeResponse)
    (Later : W → W → Type 0) (name : List ℕ) where
  -- One step. A candidate takes part once its node is on the server, as after `create_node()`. Its
  -- query is answered at the current state of the server, or fails; its watcher reports anything; it
  -- proclaims a value, with any answer; it resigns. The members that the query was made from do not
  -- change until its answer.
  pub data Step (b : Ballot W) : Ballot W → Type 0 where
    moves : (v : W) → Later b.server v → Step b (record b { server = v })
    enters :
        (i : ℕ) (c : Candidate)
        → c.elected ≡ false
        → c.election_prefix ≡ election_prefix name
        → c.candidate_key ≡ candidate_key name c.lease_id
        → 1 < c.creation_revision
        → Memᴰ (node c) (store b.server)
        → Step b (record b { at = put i c b.at })
    answers :
        (i : ℕ) (c : Candidate)
        → b.at i ≡ some c
        → Step b (record b { at = put i (on_range_request (answer range b.server c) c).0 b.at })
    fails :
        (i : ℕ) (c : Candidate) (op : Completion RangeResponse)
        → b.at i ≡ some c
        → (op.ok && (op.status == 0)) ≡ false
        → Step b (record b { at = put i (on_range_request op c).0 b.at })
    watcher_created :
        (i : ℕ) (c : Candidate) (ok : Bool) (wkey : List ℕ) (wrevision : ℕ)
        → b.at i ≡ some c
        → Step b (record b { at = put i (on_watch_create ok wkey wrevision c) b.at })
    watcher_read :
        (i : ℕ) (c : Candidate) (ok : Bool) (r : WatchResponse) (wkey : List ℕ) (wrevision : ℕ)
        → b.at i ≡ some c
        → Step b (record b { at = put i (on_watch_read ok r wkey wrevision c) b.at })
    proclaims :
        (i : ℕ) (c : Candidate) (new_value : List ℕ) (completion : Completion TxnResponse)
        → b.at i ≡ some c
        → Step b (record b {
          at = put i (proclaim (answers_with completion) new_value (alone c)).0.candidate b.at;
        })
    resigns :
        (i : ℕ) (c : Candidate)
        → b.at i ≡ some c
        → Step b (record b { at = put i (election_result false c) b.at })

  -- The states of an election that starts without candidates.
  pub data Held : Ballot W → Type 0 where
    opens : (w : W) → Held (record { server = w; at = λ i. none })
    goes : {b d : Ballot W} → Held b → Step b d → Held d
