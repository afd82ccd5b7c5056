-- ===== src/Candidate/Tests/Histories.antt =====
-- Histories of one candidate: it loses a query, its watcher is cancelled, it resigns too early.
use gee_h.Prelude.{ℕ, ◌+◌, ◌≡◌, refl, pos, Bool, true, false, none, some, [], ◌∷◌, total}
use gee_h.Counter
use gee_h.Counter.{all_done, in_shutdown, open_tracer, close_tracer}
use gee_h.Etcd.{KeyValue, RangeResponse, WatchResponse}
use gee_h.Candidate.{Op, Candidate, new, election_result, range_query, watch_read}
use gee_h.Candidate.Key.{candidate_key}
use gee_h.Candidate.Query.{query_predecessor, predecessor_request, watch_op}
use gee_h.Candidate.Watch.{on_watch_read}
use gee_h.Candidate.Balance.{on_ops}
use gee_h.Candidate.Campaign.{
  campaign, campaign_impl, create_watch_stream, node_and_query, create_node, create_node_request,
  transact, commit, node_created,
}
use gee_h.Candidate.Resign.{System, closing, destroying_ops, cleanup, resign_close, Reply, callback}
use gee_h.Candidate.Resign.Steps.{
  is_idle, campaigns, destroys, completes, initial, Reach, here, next, taken, at_world,
  with_candidate,
}
use gee_h.Candidate.Resign.Waits.{pending-Reach, all_done-Reach, destroying_ops_forever}
use gee_h.Candidate.Resign.Result.{Step-result}
use gee_h.Candidate.Leader.{stale_watch, elected_after_resign}
use gee_h.Candidate.Tests.Server.{Store, call}

abbrev empty : Store
empty = record { revision = 0; entry = λ k. none }

abbrev started : System
started = initial 10 (b'e' ∷ []) (1 ∷ [])

-- The line names what the histories run.
campaigning : System
unfolding campaign campaign_impl create_watch_stream node_and_query create_node create_node_request
    transact commit node_created open_tracer close_tracer query_predecessor new Counter.new
    candidate_key predecessor_request callback watch_op election_result cleanup
campaigning = with_candidate (campaign call true (at_world started empty)).0.candidate started

campaigning-Reach : Reach call 0 campaigning
unfolding campaigning
campaigning-Reach = next (here 10 (b'e' ∷ []) (1 ∷ [])) (campaigns true empty refl)

pending-Reach_example :
    campaigning.candidate.ops.pending ≡ pos (0 + total on_ops campaigning.candidate.queue)
pending-Reach_example = (pending-Reach 0 campaigning campaigning-Reach).0

abbrev older : ℕ → KeyValue
older n = record { key = n ∷ []; value = []; create_revision = n }

abbrev two_keys : RangeResponse
two_keys = record { revision = 3; kvs = older 1 ∷ older 2 ∷ [] }

abbrev cancelled : WatchResponse
cancelled = record {
  watch_id = 0;
  created = false;
  canceled = true;
  compact_revision = 0;
  events = [];
}

abbrev reply : Bool → Reply
reply ok = record { ok = ok; status = 0; range = two_keys; watch = cancelled }

abbrev query : System → Op
query s = range_query (predecessor_request s.candidate)

one_query : campaigning.candidate.queue ≡ query campaigning ∷ []
unfolding campaigning
one_query = refl

-- The query finds two keys; the watcher of the first is created, and cancelled; the query that
-- follows is cancelled, and the destructor begins while the second watcher is not created yet.
abbrev watching : System
watching = (callback (query campaigning) (reply true) (taken [] [] campaigning)).0

abbrev reading : System
reading =
    (callback (watch_op (older 1) 3) (reply true) (taken [] (watch_op (older 2) 3 ∷ []) watching)).0

abbrev asking : System
asking =
    (callback (watch_read (1 ∷ []) 3) (reply true) (taken (watch_op (older 2) 3 ∷ []) [] reading)).0

abbrev losing : System
losing =
    (callback (query campaigning) (reply false) (taken (watch_op (older 2) 3 ∷ []) [] asking)).0

abbrev ending : System
ending = cleanup losing

abbrev stuck : System
stuck = (callback (watch_op (older 2) 3) (reply false) (taken [] [] ending)).0

watching_queue : watching.candidate.queue ≡ watch_op (older 1) 3 ∷ watch_op (older 2) 3 ∷ []
unfolding campaigning
watching_queue = refl

reading_queue : reading.candidate.queue ≡ watch_op (older 2) 3 ∷ watch_read (1 ∷ []) 3 ∷ []
unfolding campaigning
reading_queue = refl

asking_queue : asking.candidate.queue ≡ watch_op (older 2) 3 ∷ query campaigning ∷ []
unfolding campaigning
asking_queue = refl

ending_queue : ending.candidate.queue ≡ watch_op (older 2) 3 ∷ []
unfolding campaigning
ending_queue = refl

ending_phase : ending.phase ≡ destroying_ops
unfolding campaigning
ending_phase = refl

losing_idle : is_idle losing.phase ≡ true
unfolding campaigning
losing_idle = refl

losing-Reach : Reach call 1 losing
unfolding campaigning
losing-Reach =
    next
      (next
        (next (next campaigning-Reach (completes [] [] (query campaigning) (reply true) one_query))
          (completes [] (watch_op (older 2) 3 ∷ []) (watch_op (older 1) 3) (reply true)
            watching_queue))
        (completes (watch_op (older 2) 3 ∷ []) [] (watch_read (1 ∷ []) 3) (reply true)
          reading_queue))
      (completes (watch_op (older 2) 3 ∷ []) [] (query campaigning) (reply false) asking_queue)

destroying_ops_forever_example : stuck.phase ≡ destroying_ops
unfolding watch_op
destroying_ops_forever_example =
    destroying_ops_forever 0 0 ending stuck (next losing-Reach (destroys losing_idle)) ending_phase
      (completes [] [] (watch_op (older 2) 3) (reply false) ending_queue)

-- A candidate without competitors: its query is answered at once.
abbrev alone : Reply
alone = record (reply true) { range = record { revision = 3; kvs = [] } }

abbrev elected : System
elected = (callback (query campaigning) alone (taken [] [] campaigning)).0

elected-Reach : Reach call 0 elected
unfolding campaigning
elected-Reach = next campaigning-Reach (completes [] [] (query campaigning) alone one_query)

elected_queue : elected.candidate.queue ≡ []
unfolding campaigning
elected_queue = refl

all_done-Reach_example : all_done elected.candidate.ops ≡ true
all_done-Reach_example = (all_done-Reach elected elected-Reach elected_queue).0

elected_result : elected.candidate.promise.value ≡ some true
unfolding campaigning
elected_result = refl

Step-result_test : (cleanup elected).candidate.promise.value ≡ some true
unfolding campaigning
Step-result_test = Step-result true call 0 elected (cleanup elected) (destroys refl) elected_result

-- A watcher of a candidate that stands alone behind key 1 is cancelled.
abbrev behind : Candidate
behind = record (new 10 (b'e' ∷ []) (1 ∷ [])) {
  creation_revision = 5;
  watched_keys = (1 ∷ []) ∷ [];
}

stale_watch_example :
    (on_watch_read true cancelled (1 ∷ []) 3 behind).queue
    ≡ range_query (predecessor_request behind) ∷ []
unfolding new Counter.new
stale_watch_example =
    (stale_watch behind cancelled (1 ∷ []) (1 ∷ []) [] 3 9 refl refl refl refl refl).0

-- The candidate resigns while its query is in flight.
abbrev leaving : System
leaving = record campaigning { phase = closing }

elected_after_resign_example :
    (callback
      (query campaigning)
      alone
      (taken [] [] (resign_close true true 0 leaving).0)).0.candidate.elected
    ≡ true
unfolding campaigning
elected_after_resign_example =
    (elected_after_resign leaving [] [] (predecessor_request campaigning.candidate) alone refl refl
      refl refl refl refl).2
