-- ===== src/Session/Revoked.antt =====
-- A session after `revoke()`.
use gee_h.Prelude.{ℕ, ◌≡◌, ◌∙◌, Bool, true, false, arith}
use gee_h.Effect.{Completion}
use gee_h.Session.{
  KeepAlive, timer, ka_write, ka_read, Session, is_active, set_timer, on_timeout, on_write, on_read,
  Answer, respond,
}
use gee_h.Session.Lease.{
  shutdown_reads, shutdown_ops, open_stage, revoking_ops, Owner, revoke, close_stream, revoke_close,
  destroy,
}
use gee_h.Session.Waits.{
  without, Turn, answers, revokes, reads_done, ops_done, destroys, ending_reads_done,
  ending_ops_done, Lives, built, turned,
}

respond-shutdown :
    (op : KeepAlive) (e : Answer) (s : Session) → (respond op e s).ops.shutdown ≡ s.ops.shutdown
unfolding respond on_timeout on_write on_read set_timer
respond-shutdown (timer deadline) e s = ground arith
respond-shutdown (ka_write id) e s = ground arith
respond-shutdown ka_read e s = ground arith

-- `ops_` refuses operations in the second wait of `revoke()`.
IsClosing : Owner → Type 0
IsClosing o = o.stage ≡ revoking_ops → o.session.ops.shutdown ≡ true

revoke-IsClosing :
    (completion : Completion (Unit {0})) (o : Owner)
    → o.stage ≡ open_stage
    → IsClosing (revoke completion o).0
unfolding revoke IsClosing
revoke-IsClosing completion o h = ground arith

revoke_close-IsClosing :
    (done_ok finish_ok : Bool) (status : ℕ) (o : Owner)
    → IsClosing (revoke_close done_ok finish_ok status o).0
unfolding revoke_close close_stream IsClosing
revoke_close-IsClosing done_ok finish_ok status o = ground arith

destroy-IsClosing : (o : Owner) → IsClosing (destroy o)
unfolding destroy IsClosing
destroy-IsClosing o = ground arith

Turn-IsClosing : (o p : Owner) → Turn o p → IsClosing o → IsClosing p
unfolding IsClosing
Turn-IsClosing o _ (answers xs ys op e i) v =
    λ h. respond-shutdown op e (without xs ys o.session) ∙ v h
Turn-IsClosing o _ (revokes completion i) v = revoke-IsClosing completion o i
Turn-IsClosing o _ (reads_done done_ok finish_ok status p d) v =
    revoke_close-IsClosing done_ok finish_ok status o
Turn-IsClosing o _ (ops_done p d) v = ground arith
Turn-IsClosing o _ (destroys i) v = destroy-IsClosing o
Turn-IsClosing o _ (ending_reads_done p d) v = ground arith
Turn-IsClosing o _ (ending_ops_done p d) v = ground arith

Lives-IsClosing : (o : Owner) → Lives o → IsClosing o
unfolding IsClosing
Lives-IsClosing _ (built grant ok now desired_ttl requested r) = ground arith
Lives-IsClosing _ (turned {o = o} {p = p} v t) = Turn-IsClosing o p t (Lives-IsClosing o v)

-- The states that follow a state.
pub data Later (o : Owner) : Owner → Type 0 where
  at_once : Later o o
  afterwards : {p q : Owner} → Later o p → Turn p q → Later o q

Turn-shutdown :
    (o p : Owner) → Turn o p → o.session.ops.shutdown ≡ true → p.session.ops.shutdown ≡ true
unfolding revoke revoke_close close_stream destroy shutdown_reads shutdown_ops
Turn-shutdown o _ (answers xs ys op e i) h = respond-shutdown op e (without xs ys o.session) ∙ h
Turn-shutdown o _ (revokes completion i) h = ground arith
Turn-shutdown o _ (reads_done done_ok finish_ok status p d) h = ground arith
Turn-shutdown o _ (ops_done p d) h = h
Turn-shutdown o _ (destroys i) h = ground arith
Turn-shutdown o _ (ending_reads_done p d) h = ground arith
Turn-shutdown o _ (ending_ops_done p d) h = h

Later-shutdown :
    (o p : Owner) → Later o p → o.session.ops.shutdown ≡ true → p.session.ops.shutdown ≡ true
Later-shutdown o _ at_once h = h
Later-shutdown o _ (afterwards {p = p} {q = q} l t) h = Turn-shutdown p q t (Later-shutdown o p l h)

-- In every history, once `revoke()` has come to its second wait, the session is never active again:
-- not while the wait goes on, nor after `revoke()` has returned, whatever callbacks run and whatever
-- the application calls.
pub revoked_for_good :
    (o p : Owner) → Lives o → o.stage ≡ revoking_ops → Later o p → is_active p.session ≡ false
unfolding is_active IsClosing
revoked_for_good o p v h l = let shut = Later-shutdown o p l (Lives-IsClosing o v h) in ground arith
