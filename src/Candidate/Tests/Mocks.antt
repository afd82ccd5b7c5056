-- ===== src/Candidate/Tests/Mocks.antt =====
-- The mocks of gh/detail/election_candidate_impl_ut.cpp: what they answer, and the calls that the tests
-- make. Where a mock calls a callback at once, the operation is completed by the next step.
use gee_h.Prelude.{ℕ, true, false, List, [], ◌∷◌, ◌++◌}
use gee_h.Counter
use gee_h.Counter.{all_done, open_tracer, close_tracer}
use gee_h.Effect.{Outcome, returns, Completion}
use gee_h.Etcd.{KeyValue, TxnRequest, TxnResponse, WatchResponse}
use gee_h.Candidate.{Op, new, election_result}
use gee_h.Candidate.Key.{candidate_key}
use gee_h.Candidate.Query.{query_predecessor, predecessor_request, watch_op}
use gee_h.Candidate.Watch.{erase_deleted}
use gee_h.Candidate.Campaign.{
  World, campaign, campaign_impl, create_watch_stream, node_and_query, create_node,
  create_node_request, transact, commit, node_created, reuse_node, take_over, publish_value,
  publish_request, proclaim, proclaim_rest,
}
use gee_h.Candidate.Resign.{
  System, resign, resign_reads, resign_close, cancel_watches, Reply, callback,
}
use gee_h.Candidate.Resign.Steps.{initial}

-- "mock-election", and a byte string of the tests behind it.
abbrev pub mock_election : List ℕ
mock_election =
    b'm' ∷ b'o' ∷ b'c' ∷ b'k' ∷ b'-' ∷ b'e' ∷ b'l' ∷ b'e' ∷ b'c' ∷ b't' ∷ b'i' ∷ b'o' ∷ b'n' ∷ []

abbrev pub mock_key : ℕ → ℕ → ℕ → List ℕ
mock_key a b c = mock_election ++ b'/' ∷ a ∷ b ∷ c ∷ b'0' ∷ b'0' ∷ b'0' ∷ []

abbrev pub key_123456 : List ℕ
key_123456 = mock_election ++ b'/' ∷ b'1' ∷ b'2' ∷ b'3' ∷ b'4' ∷ b'5' ∷ b'6' ∷ []

abbrev pub bcd2000 : List ℕ
bcd2000 = b'b' ∷ b'c' ∷ b'd' ∷ b'2' ∷ b'0' ∷ b'0' ∷ b'0' ∷ []

abbrev pub bcd1200 : List ℕ
bcd1200 = b'b' ∷ b'c' ∷ b'd' ∷ b'1' ∷ b'2' ∷ b'0' ∷ b'0' ∷ []

abbrev pub bcd1000 : List ℕ
bcd1000 = b'b' ∷ b'c' ∷ b'd' ∷ b'1' ∷ b'0' ∷ b'0' ∷ b'0' ∷ []

-- The mocks of the transactions: what they will answer, and what they were asked.
pub record Mock : Type 0 where
  pub answers : List TxnResponse
  pub asked : List TxnRequest

abbrev pub mock_call : Mock → TxnRequest → Mock × Completion TxnResponse
mock_call m req = elim m.answers [
  | [] ↦ (
    m,
    record {
      ok = false;
      status = 0;
      response = record { revision = 0; succeeded = false; responses = [] };
    },
  )
  | a ∷ rest ↦ (
    record { answers = rest; asked = m.asked ++ req ∷ [] },
    record { ok = true; status = 0; response = a },
  )
]

-- The test's candidate, its mocks, and what the last call of the test returned.
pub record Stage : Type 0 where
  pub system : System
  pub mock : Mock
  pub result : Outcome (Unit {0})

unfoldable pub answering : List TxnResponse → ℕ → List ℕ → Stage
unfolding new Counter.new candidate_key
answering answers lease_id value = record {
  system = initial lease_id mock_election value;
  mock = record { answers = answers; asked = [] };
  result = returns tt;
}

abbrev pub at_stage : (World Mock → World Mock × Outcome (Unit {0})) → Stage → Stage
at_stage m s =
    let (w, r) = m (record { candidate = s.system.candidate; server = s.mock }) in
    record { system = record s.system { candidate = w.candidate }; mock = w.server; result = r }

-- The first operation in the queue completes.
abbrev pub completed : Reply → List Op → Stage → Stage
completed r [] s = s
completed r (op ∷ ops) s =
    let c = s.system.candidate in
    let (t, o) = callback op r (record s.system { candidate = record c { queue = ops } }) in
    record s { system = t; result = o }

unfoldable pub complete : Reply → Stage → Stage
unfolding callback watch_op election_result query_predecessor predecessor_request candidate_key
    erase_deleted
complete r s = completed r s.system.candidate.queue s

abbrev pub no_watch : WatchResponse
no_watch = record {
  watch_id = 0;
  created = false;
  canceled = false;
  compact_revision = 0;
  events = [];
}

abbrev pub found_keys : ℕ → List KeyValue → Reply
found_keys revision kvs = record {
  ok = true;
  status = 0;
  range = record { revision = revision; kvs = kvs };
  watch = no_watch;
}

abbrev pub ok_reply : Reply
ok_reply = found_keys 0 []

abbrev pub cancelled : Reply
cancelled = record ok_reply { ok = false }

abbrev pub reported : WatchResponse → Reply
reported r = record ok_reply { watch = r }

-- `resign()` with mocks that complete its calls; `try_cancel_on` completes the read on its way.
unfoldable pub resigned : Stage → Stage
unfolding complete resign cancel_watches resign_reads resign_close open_tracer close_tracer
    election_result Counter.new
resigned s =
    let (t, o) = resign s.system in
    let stopped = complete cancelled (record s { system = t }) in
    let (u, p) = resign_close true true 0 (resign_reads stopped.system) in
    record s { system = u; result = p }

unfoldable pub campaigned : Stage → Stage
unfolding campaign campaign_impl create_watch_stream node_and_query create_node create_node_request
    transact commit node_created reuse_node take_over publish_value publish_request open_tracer
    close_tracer query_predecessor predecessor_request election_result
campaigned = at_stage (campaign mock_call true)

unfoldable pub proclaimed : List ℕ → Stage → Stage
unfolding proclaim proclaim_rest transact commit publish_value publish_request open_tracer
    close_tracer
proclaimed value = at_stage (proclaim mock_call value)
