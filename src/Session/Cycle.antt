-- ===== src/Session/Cycle.antt =====
-- One round of the keep-alive cycle, and where it ends.
use gee_h.Prelude.{ℕ, ◌+◌, ◌*◌, ◌/◌, ◌≡◌, Bool, true, false, [], ◌∷◌, arith}
use gee_h.Effect.{returns, Completion}
use gee_h.Etcd.{LeaseGrantRequest, LeaseGrantResponse}
use gee_h.Counter
use gee_h.Session.{
  KeepAlive, timer, ka_write, ka_read, Session, unopened, is_active, set_timer, on_timeout,
  on_write, on_read, Answer, respond,
}
use gee_h.Session.Lease.{grant_request, granted, open_session, preamble}
use gee_h.Session.Drain.{answered, all_answered}

-- When the constructor returns, the session has the server's lease and time to live, is active, and
-- its first keep-alive is due after a fifth of that time.
pub preamble_returns :
    (grant : LeaseGrantRequest → Completion LeaseGrantResponse) (ok : Bool)
    (now desired_ttl lease_id : ℕ)
    → (preamble grant ok now (unopened desired_ttl lease_id)).1 ≡ returns tt
    → let s = (preamble grant ok now (unopened desired_ttl lease_id)).0 in
      let resp = (grant (record { id = lease_id; ttl = desired_ttl / 1000 })).response in
      (s.lease_id ≡ resp.id)
      × (s.actual_ttl ≡ resp.ttl * 1000)
      × (s.queue ≡ timer (now + resp.ttl * 1000 / 5) ∷ [])
      × (is_active s ≡ true)
unfolding preamble open_session granted grant_request set_timer unopened Counter.new is_active
preamble_returns grant ok now desired_ttl lease_id h = ground arith

-- While the session is not shut down and no operation is cancelled, a timer leads to a write of the
-- lease, a read, and the next timer: a fifth of the time to live that the server answered after
-- that answer. The counters are then as before.
pub renewed :
    (s : Session) (deadline : ℕ) (fired written got : Answer)
    → s.queue ≡ timer deadline ∷ []
    → s.ops.shutdown ≡ false
    → s.reads.shutdown ≡ false
    → fired.ok ≡ true
    → written.ok ≡ true
    → got.ok ≡ true
    → let t = all_answered (fired ∷ written ∷ got ∷ []) s in
      ((answered fired s).queue ≡ ka_write s.lease_id ∷ [])
      × ((answered written (answered fired s)).queue ≡ ka_read ∷ [])
      × (t.queue ≡ timer (got.now + got.ttl * 1000 / 5) ∷ [])
      × (t.actual_ttl ≡ got.ttl * 1000)
      × (t.lease_id ≡ s.lease_id)
      × (is_active t ≡ true)
      × (t.ops ≡ s.ops)
      × (t.reads ≡ s.reads)
unfolding all_answered answered respond on_timeout on_write on_read set_timer is_active
renewed s deadline fired written got q o r f w g = rw q (ground arith)

-- When the outstanding timer, write or read of an active session fails, the cycle ends: nothing is outstanding, so no
-- keep-alive follows, but the session still says that it is active.
pub broken :
    (s : Session) (op : KeepAlive) (e : Answer)
    → s.queue ≡ op ∷ []
    → is_active s ≡ true
    → e.ok ≡ false
    → ((answered e s).queue ≡ []) × (is_active (answered e s) ≡ true)
unfolding answered respond on_timeout on_write on_read is_active
broken s (timer deadline) e q a h = rw q (ground arith)
broken s (ka_write id) e q a h = rw q (ground arith)
broken s ka_read e q a h = rw q (ground arith)

-- When the server answers that the lease has expired, with the time to live 0, the session stays
-- active and sets a timer that is due at once.
pub expired :
    (s : Session) (e : Answer)
    → s.queue ≡ ka_read ∷ []
    → is_active s ≡ true
    → e.ok ≡ true
    → e.ttl ≡ 0
    → ((answered e s).queue ≡ timer e.now ∷ []) × (is_active (answered e s) ≡ true)
unfolding answered respond on_read set_timer is_active
expired s e q a h t = rw q (ground arith)
