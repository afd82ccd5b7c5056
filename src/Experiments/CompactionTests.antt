-- ===== src/Experiments/CompactionTests.antt =====
-- A server for experiments/watcher_and_compaction.cpp: it notes the puts, and answers the reads of the
-- watcher stream from a list.
use gee_h.Prelude.{
  codes, ℕ, ◌≡◌, refl, true, List, [], ◌∷◌, Option, none, some, if◌then◌else◌, bytes_eq,
  bytes_eq_refl, arith,
}
use gee_h.Counter
use gee_h.Effect.{Completion}
use gee_h.Etcd.{KeyValue, put, LeaseGrantRequest, LeaseGrantResponse, WatchResponse}
use gee_h.Errors.{ok, check_grpc_status}
use gee_h.Experiments.{Reply, PutRequest}
use gee_h.Experiments.Compaction.{Stubs, Experiment, make_key, change_nodes, main, unset_response}
use gee_h.Experiments.Leases.{change_nodes-lease}
use gee_h.Session.{unopened}
use gee_h.Session.Lease.{open_stage}

record Server : Type 0 where
  puts : List PutRequest
  reads : List WatchResponse

-- The lease of a key's last put.
abbrev last_lease : List PutRequest → List ℕ → ℕ
last_lease [] k = 0
last_lease (p ∷ ps) k = if bytes_eq p.key k then p.lease else last_lease ps k

abbrev lease_of : Server → List ℕ → ℕ
lease_of w k = last_lease w.puts k

abbrev fine : {R : Type 0} → R → Reply R
fine r = record { status = record { error_code = 0; error_message = [] }; response = r }

abbrev next_read : List WatchResponse → Option WatchResponse
next_read [] = none
next_read (r ∷ rs) = some r

abbrev other_reads : List WatchResponse → List WatchResponse
other_reads [] = []
other_reads (r ∷ rs) = rs

abbrev stubs : Stubs Server
stubs = record {
  txn = λ req w. (
    record w {
      puts = record { key = req.put_key; value = req.put_value; lease = req.put_lease } ∷ w.puts;
    },
    fine (record { revision = 3; succeeded = true; responses = [] }),
  );
  put = λ req w. (record w { puts = req ∷ w.puts }, fine tt);
  delete_range = λ key w. (w, fine 9);
  compact = λ revision physical w. (w, fine tt);
  watch_write = λ req w. w;
  watch_read = λ w. (record w { reads = other_reads w.reads }, next_read w.reads);
}

abbrev kv : KeyValue
kv = record { key = []; value = []; create_revision = 4 }

abbrev responses : List WatchResponse
responses =
    record unset_response { created = true }
    ∷ record unset_response { compact_revision = 9 }
    ∷ record unset_response { created = true }
    ∷ record unset_response { events = record { type = put; kv = kv; prev_kv = kv } ∷ [] }
    ∷ record unset_response { canceled = true }
    ∷ []

abbrev server : Server
server = record { puts = []; reads = responses }

abbrev grant : LeaseGrantRequest → Completion LeaseGrantResponse
grant req = record { ok = true; status = 0; response = record { id = 0x2a; ttl = 5; error = [] } }

abbrev revoked : Completion (Unit {0})
revoked = record { ok = true; status = 0; response = tt }

abbrev prefix : List ℕ
prefix = codes "p"

-- The program succeeds on this server, and not with two names or where the first watcher lives on.
main_test :
    ((main stubs grant true 0 revoked (prefix ∷ []) server).1 ≡ 0)
    × ((main stubs grant true 0 revoked [] server).1 ≡ 1)
    × ((main stubs grant true 0 revoked (prefix ∷ []) (record server { reads = [] })).1 ≡ 1)
unfolding main check_grpc_status Counter.new
main_test = (refl, refl, refl)

abbrev start : Experiment Server
start = record {
  session = record { session = unopened 5000 0; stage = open_stage };
  watch_response = unset_response;
  world = server;
}

puts-lease :
    (req : PutRequest) (w : Server)
    → ok (stubs.put req w).1.status ≡ true
    → lease_of (stubs.put req w).0 req.key ≡ req.lease
puts-lease req w h = ground (arith, bytes_eq_refl req.key)

change_nodes-lease_test :
    lease_of (change_nodes stubs prefix 0x2a start).0.world (make_key prefix (codes "/node1") 0x2a)
    ≡ 0
unfolding change_nodes check_grpc_status
change_nodes-lease_test = change_nodes-lease stubs lease_of puts-lease prefix 0x2a start refl
