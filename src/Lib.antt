-- ===== src/Lib.antt =====
-- Verification of gee-h, a C++ library of leader elections, sessions and watchers over an etcd server.
--
-- The parts and the files that model them:
--
-- gh/prefix_end.cpp is `PrefixEnd`: the end of the range of keys that start with a prefix, on bytes.
-- The order of keys, and what the range holds, is in `PrefixEnd/Range`.
--
-- gh/detail/async_op_counter.hpp and .cpp are `Counter`: the number of pending operations and the flag
-- that refuses new ones, one function per method, and `async_op_tracer` as `open_tracer` and
-- `close_tracer`. The mutex makes each method one step. A wait is cut into what it does before it
-- sleeps (`begin_wait`) and the predicate under which it returns (`all_done`). `Counter/Drain` has the
-- calls of any threads in the order of the mutex.
--
-- gh/detail/base_completion_queue.hpp and .cpp are `Queue`: operations by their tags, and the loop;
-- `Queue/Calls` has the histories of a queue, `Queue/Destroy` its destructor and what that logs, and
-- `Queue/Foreign` tags that the queue did not give out. The components that own a state machine do not use it:
-- each has the list of the operations it has posted, any of which the queue may complete next.
--
-- gh/completion_queue.hpp, with gh/detail/default_grpc_interceptor.hpp, gh/detail/base_async_op.hpp and
-- gh/detail/stream_async_ops.hpp, is `Async`: the operations that a program starts on a `Queue`, with a
-- functor or with a future. `Async/Calls` has the callbacks, `Async/History` the histories of a queue
-- with any requests and any reports, `Async/Counting` counts the operations that hold a promise, and
-- `Async/Futures`, `Async/Settled` and `Async/Kept` are about the futures. `Async/Timers` has the
-- deadline timers and `Async/Mocked` the interceptor of gh/detail/mocked_grpc_interceptor.hpp.
--
-- gh/active_completion_queue.hpp and .cpp are `ActiveQueue`: a queue with the thread of its loop, its
-- moves and its destructor.
--
-- gh/detail/grpc_errors.hpp and .cpp, gh/detail/append_annotations.hpp, gh/assert_throw.hpp and .cpp and
-- gh/detail/stream_future_status.hpp are `Errors`: the check of a status and the text of its exception;
-- the text is the subject of `Errors/Texts`.
--
-- `Effect` has methods that may throw and promises, that check without its text, and the
-- result of a future of gh/completion_queue.hpp as a function of the completion of its operation, which
-- the blocking calls of the other components use and `Async/Settled` compares with the callbacks.
-- `Etcd` has the messages of the etcd protocol that the program builds and reads.
--
-- gh/detail/election_candidate_impl.hpp is `Candidate`, a record of the members of the class and of the
-- operations it has in the completion queue. `Candidate/Key` has the names of the constructor,
-- `Candidate/Query` the query for the predecessor and its callback, `Candidate/Watch` the callbacks of
-- the watcher stream, `Candidate/Campaign` `campaign()` and `proclaim()`, `Candidate/Resign` `resign()`
-- and the destructor. `Candidate/Resign/Steps` puts them together: a step is a method, a part of a
-- method between two waits, or the callback of any operation in the queue, with any reply, in any
-- order. `Candidate/Campaign/Kept`, `Candidate/Campaign/Named` and `Candidate/Resign/Names` are about
-- what the methods leave as it is. `Candidate/Election` compares the query with the keys on the server, `Candidate/History`
-- two queries at different times, `Candidate/Leader` has the histories in which a candidate's result
-- and the server's state part.
--
-- `Candidate/Protocol` is an election as a whole: any number of candidates whose callbacks interleave,
-- and a server whose state goes on by itself; `Candidate/Protocol/Unelected` and
-- `Candidate/Protocol/Leaders` are about who leads it. `Candidate/Succession` follows a candidate from its watcher to its election. The stages of the tests in
-- gh/detail/election_candidate_impl_ut.cpp stand in `Candidate/Tests/Scenarios`, their mocks in
-- `Candidate/Tests/Mocks`; the other large unit tests stand in the `Scenarios` of their components.
--
-- gh/detail/session_impl.hpp is `Session`: the record, the timer and the callbacks; `Session/Lease` has
-- the constructor, `revoke()` and the destructor. `Session/Waits` has the histories of a session,
-- `Session/Drain` its waits, `Session/Cycle` the keep-alive cycle and `Session/Renewals` the lease of its
-- requests, and `Session/Revoked` what follows `revoke()`.
--
-- gh/detail/election_observer_impl.hpp is `Observer`: the participants, the subscriptions and the
-- methods that the application reads them with; `Observer/Events` has the operations on the completion
-- queue and their callbacks. `Observer/Leader` and `Observer/Changes` compare the participants and the
-- calls of subscribers with the events, `Observer/Histories`, `Observer/Kept` and
-- `Observer/Waits` are about histories, `Observer/Current` about the leader that is reported, and
-- `Observer/Tokens` about the subscriptions.
--
-- gh/detail/cluster_membership_impl.hpp is `Membership`; `Membership/Refresh` has the histories of its
-- refresh loop.
--
-- gh/leader_election.hpp and .cpp and gh/watch_election.hpp and .cpp are `Elections`: a session with a
-- candidate, and an observer. `Elections/Leadership` is about the session and the candidate together,
-- `Elections/Histories` has the histories in which their callbacks interleave with the application, and
-- `Elections/Sharing` is about the lease in them.
--
-- gh/etcd_client.hpp and .cpp and gh/detail/client_async_op.hpp are `Client`; `Client/Answers` is about
-- the future of a lease request.
--
-- gh/log.hpp and .cpp, gh/log_severity.hpp and .cpp and gh/log_sink.hpp are `Log`; `Log/Lines` has the
-- macro that logs a line, `Log/Sinks` the uses of a log, and `Log/Tests` the lines of gh/log_ut.cpp.
--
-- gh/detail/rpc_policies.hpp and .cpp are `Policies`; `Policies/Runs` is about runs of failures.
--
-- examples/ is `Examples`: the two programs over the election classes, where what happens while the main
-- thread sleeps is a parameter. experiments/ is `Experiments`: the two programs over the stubs of the
-- cluster, which are parameters; `Experiments/Channels`, `Experiments/Healthy` and
-- `Experiments/Leases` are about them.
--
-- What is a parameter: the etcd server. `call` gives its next state and the completion of a
-- transaction, `range` the answer to a range request; the laws `EtcdTxn` (Candidate/Campaign/Node) and
-- `EtcdRange` (Candidate/Election) are what etcd documents of them, and `EtcdHistory`
-- (Candidate/History) of the revisions of its keys; the tests have a server that fulfils them. The session's `grant` gives the completion of the lease request, and its clock is the
-- argument `now`. gRPC is a reply for each operation: whether it was cancelled, its status and its
-- response. Protobuf's PrintToString gives the text of a message.
--
-- Bounds: counters are integers and revisions, lease ids and watch ids natural numbers, without the
-- wrap-around of their 32 and 64 bits, except that the length of a key is that of a 64-bit lease. Bytes are numbers, and incrementing 0xFF gives 0. The fuel
-- of the hexadecimal lease id and of a decimal line number is the number itself plus one, where each
-- digit divides it by 16 or 10; the loop of the logging macro runs on any fuel of at least 2, and that of
-- examples/join_election.cpp on one round more than it sleeps before the interrupt
-- (`Examples/Endings`).
--
-- Left out: what the log lines of the components say; the threads behind the completion queue, since a
-- callback and a blocking call are one step each and one application thread calls the methods of an
-- object; what a subscriber or a sink does, and the output of the programs on a terminal; the traits that
-- deduce types from member functions; the tests that need a server.
pub mod ActiveQueue
pub mod Async
pub mod Candidate
pub mod Client
pub mod Counter
pub mod Effect
pub mod Elections
pub mod Errors
pub mod Etcd
pub mod Examples
pub mod Experiments
pub mod Log
pub mod Membership
pub mod Observer
pub mod Policies
pub mod PrefixEnd
pub mod Prelude
pub mod Queue
pub mod Session
