-- ===== src/Session/Renewals.antt =====
-- The keep-alive requests of a session.
use gee_h.Prelude.{
  ℕ, ◌≡◌, refl, sym, Bool, true, false, List, [], ◌∷◌, ◌++◌, ◌+◌, ◌*◌, ◌/◌, arith, Bool-cases, inl,
  inr, subst,
}
use gee_h.Counter.{async_op_start, async_op_done}
use gee_h.Counter
use gee_h.Effect.{Completion}
use gee_h.Etcd.{LeaseGrantRequest, LeaseGrantResponse}
use gee_h.Session.{
  KeepAlive, timer, ka_write, ka_read, Session, unopened, set_timer, on_timeout, on_write, on_read,
  Answer, respond, keep_alives_per_ttl,
}
use gee_h.Session.Lease.{
  granted, open_session, preamble, shutdown_reads, shutdown_ops, Owner, revoke, close_stream,
  revoke_close, destroy,
}
use gee_h.Session.Waits.{
  without, Turn, answers, revokes, reads_done, ops_done, destroys, ending_reads_done,
  ending_ops_done, Lives, built, turned,
}

-- Every keep-alive request in `queue` is for the lease `id`.
pub Renews : ℕ → List KeepAlive → Type 0
Renews id [] = Unit
Renews id (timer deadline ∷ q) = Renews id q
Renews id (ka_write i ∷ q) = (i ≡ id) × Renews id q
Renews id (ka_read ∷ q) = Renews id q

Renews-append : (id : ℕ) (p q : List KeepAlive) → Renews id p → Renews id q → Renews id (p ++ q)
unfolding Renews
Renews-append id [] q a b = b
Renews-append id (timer deadline ∷ p) q a b = Renews-append id p q a b
Renews-append id (ka_write i ∷ p) q a b = (a.0, Renews-append id p q a.1 b)
Renews-append id (ka_read ∷ p) q a b = Renews-append id p q a b

Renews-without :
    (id : ℕ) (xs ys : List KeepAlive) (op : KeepAlive)
    → Renews id (xs ++ op ∷ ys)
    → Renews id (xs ++ ys)
unfolding Renews
Renews-without id [] ys (timer deadline) h = h
Renews-without id [] ys (ka_write i) h = h.1
Renews-without id [] ys ka_read h = h
Renews-without id (timer deadline ∷ xs) ys op h = Renews-without id xs ys op h
Renews-without id (ka_write i ∷ xs) ys op h = (h.0, Renews-without id xs ys op h.1)
Renews-without id (ka_read ∷ xs) ys op h = Renews-without id xs ys op h

IsOwn : Session → Type 0
IsOwn s = Renews s.lease_id s.queue

set_timer-IsOwn : (now : ℕ) (s : Session) → IsOwn s → IsOwn (set_timer now s)
unfolding set_timer async_op_start IsOwn Renews
set_timer-IsOwn now s h = elim (Bool-cases s.ops.shutdown) [
  | inl down ↦ simp down h
  | inr up ↦ simp up (
      Renews-append s.lease_id s.queue (timer (now + s.actual_ttl / keep_alives_per_ttl) ∷ []) h tt)
]

on_timeout-IsOwn : (ok : Bool) (s : Session) → IsOwn s → IsOwn (on_timeout ok s)
unfolding on_timeout async_op_start async_op_done IsOwn Renews
on_timeout-IsOwn false s h = h
on_timeout-IsOwn true s h = elim (Bool-cases s.ops.shutdown) [
  | inl down ↦ simp down h
  | inr up ↦ simp up (Renews-append s.lease_id s.queue (ka_write s.lease_id ∷ []) h (refl, tt))
]

on_write-IsOwn : (ok : Bool) (s : Session) → IsOwn s → IsOwn (on_write ok s)
unfolding on_write async_op_start async_op_done IsOwn Renews
on_write-IsOwn false s h = h
on_write-IsOwn true s h = elim (Bool-cases s.reads.shutdown) [
  | inl down ↦ simp down h
  | inr up ↦ simp up (Renews-append s.lease_id s.queue (ka_read ∷ []) h tt)
]

on_read-IsOwn : (ok : Bool) (ttl now : ℕ) (s : Session) → IsOwn s → IsOwn (on_read ok ttl now s)
unfolding on_read IsOwn
on_read-IsOwn false ttl now s h = h
on_read-IsOwn true ttl now s h =
    set_timer-IsOwn now (record s { reads = async_op_done s.reads; actual_ttl = ttl * 1000 }) h

respond-IsOwn : (op : KeepAlive) (e : Answer) (s : Session) → IsOwn s → IsOwn (respond op e s)
unfolding respond
respond-IsOwn (timer deadline) e s h = on_timeout-IsOwn e.ok s h
respond-IsOwn (ka_write id) e s h = on_write-IsOwn e.ok s h
respond-IsOwn ka_read e s h = on_read-IsOwn e.ok e.ttl e.now s h

-- What `revoke()` and the destructor leave as it is.
own_of : Session → ℕ × List KeepAlive
own_of s = (s.lease_id, s.queue)

own_of-IsOwn : (s t : Session) → own_of t ≡ own_of s → IsOwn s → IsOwn t
unfolding own_of IsOwn
own_of-IsOwn s t e h = subst (λ p. Renews p.0 p.1) (sym e) h

revoke-own :
    (completion : Completion (Unit {0})) (o : Owner)
    → own_of (revoke completion o).0.session ≡ own_of o.session
unfolding revoke own_of
revoke-own completion o = ground arith

revoke_close-own :
    (done_ok finish_ok : Bool) (status : ℕ) (o : Owner)
    → own_of (revoke_close done_ok finish_ok status o).0.session ≡ own_of o.session
unfolding revoke_close close_stream own_of
revoke_close-own done_ok finish_ok status o = ground arith

destroy-own : (o : Owner) → own_of (destroy o).session ≡ own_of o.session
unfolding destroy shutdown_reads own_of
destroy-own o = ground arith

Turn-IsOwn : (o p : Owner) → Turn o p → IsOwn o.session → IsOwn p.session
unfolding shutdown_ops IsOwn
Turn-IsOwn o _ (answers xs ys op e i) h =
    respond-IsOwn op e (without xs ys o.session)
      (Renews-without o.session.lease_id xs ys op (subst (Renews o.session.lease_id) i h))
Turn-IsOwn o _ (revokes completion i) h =
    own_of-IsOwn o.session (revoke completion o).0.session (revoke-own completion o) h
Turn-IsOwn o _ (reads_done done_ok finish_ok status p d) h =
    own_of-IsOwn o.session (revoke_close done_ok finish_ok status o).0.session
      (revoke_close-own done_ok finish_ok status o) h
Turn-IsOwn o _ (ops_done p d) h = h
Turn-IsOwn o _ (destroys i) h = own_of-IsOwn o.session (destroy o).session (destroy-own o) h
Turn-IsOwn o _ (ending_reads_done p d) h = h
Turn-IsOwn o _ (ending_ops_done p d) h = h

preamble-IsOwn :
    (grant : LeaseGrantRequest → Completion LeaseGrantResponse) (ok : Bool)
    (now desired_ttl requested : ℕ)
    → IsOwn (preamble grant ok now (unopened desired_ttl requested)).0
unfolding preamble open_session granted set_timer unopened Counter.new shutdown_reads shutdown_ops
    IsOwn Renews
preamble-IsOwn grant ok now desired_ttl requested = ground arith

-- In every history of a session, each keep-alive request that is outstanding is for the lease that
-- the session has.
pub Lives-Renews : (o : Owner) → Lives o → Renews o.session.lease_id o.session.queue
unfolding IsOwn
Lives-Renews _ (built grant ok now desired_ttl requested r) =
    preamble-IsOwn grant ok now desired_ttl requested
Lives-Renews _ (turned {o = o} {p = p} v t) = Turn-IsOwn o p t (Lives-Renews o v)
