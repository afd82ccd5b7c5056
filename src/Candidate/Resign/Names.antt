-- ===== src/Candidate/Resign/Names.antt =====
-- No step of a candidate changes its names.
use gee_h.Prelude.{ℕ, ◌≡◌, refl, List, [], ◌∷◌, arith}
use gee_h.Counter.{Counter, async_op_start}
use gee_h.Counter
use gee_h.Effect.{Completion}
use gee_h.Etcd.{RangeResponse, TxnRequest, TxnResponse, cancel_request}
use gee_h.Candidate.{
  Op, range_query, watch_create, watch_read, watch_cancel, Candidate, election_result, post,
}
use gee_h.Candidate.Protocol.Unelected.{
  IsSame, on_range_request-IsSame, on_watch_create-IsFollowed, on_watch_read-IsFollowed,
}
use gee_h.Candidate.Campaign.Named.{names_of, campaign-names, proclaim-names}
use gee_h.Candidate.Resign.{
  System, cancel_watches, resign, resign_reads, resign_close, cleanup, cleanup_reads, Reply,
  callback,
}
use gee_h.Candidate.Resign.Steps.{
  taken, at_world, Step, campaigns, proclaims, resigns, cancels_done, reads_done, destroys,
  ops_done, ended, completes,
}

IsSame-names : {c d : Candidate} → IsSame c d → names_of d ≡ names_of c
IsSame-names v = ground arith

cancel_watches-names :
    (ws : List ℕ) (cancels : Counter) (c : Candidate)
    → names_of (cancel_watches ws cancels c).1 ≡ names_of c
unfolding cancel_watches
cancel_watches-names [] cancels c = refl
cancel_watches-names (w ∷ ws) cancels c = ground (
  arith,
  cancel_watches-names ws (async_op_start cancels).0 (post (watch_cancel (cancel_request w) w) c),
)

callback-names :
    (op : Op) (r : Reply) (s : System)
    → names_of (callback op r s).0.candidate ≡ names_of s.candidate
unfolding callback
callback-names (range_query req) r s =
    let op : Completion RangeResponse = record {
      ok = r.ok;
      status = r.status;
      response = r.range;
    } in
    IsSame-names (on_range_request-IsSame op s.candidate)
callback-names (watch_create req wkey wrevision) r s =
    IsSame-names (on_watch_create-IsFollowed r.ok wkey wrevision s.candidate).same
callback-names (watch_read wkey wrevision) r s =
    IsSame-names (on_watch_read-IsFollowed r.ok r.watch wkey wrevision s.candidate).same
callback-names (watch_cancel req w) r s = refl

-- Whatever a candidate does, its lease, its key and its prefix stay.
pub Step-names :
    {W : Type 0} (call : W → TxnRequest → W × Completion TxnResponse) (j : ℕ) (s t : System)
    → Step call s j t
    → names_of t.candidate ≡ names_of s.candidate
unfolding resign resign_reads resign_close cleanup cleanup_reads election_result
Step-names call j s t (campaigns ok w i) = campaign-names call ok (at_world s w)
Step-names call j s t (proclaims v w i) = proclaim-names call v (at_world s w)
Step-names call j s t (resigns i) = ground (
  arith,
  cancel_watches-names s.candidate.current_watches Counter.new
      (record s.candidate { current_watches = [] }),
)
Step-names call j s t (cancels_done p d) = refl
Step-names call j s t (reads_done done_ok finish_ok status p d) = ground arith
Step-names call j s t (destroys i) = ground arith
Step-names call j s t (ops_done p d) = refl
Step-names call j s t (ended p d) = refl
Step-names call j s t (completes xs ys op r e) = callback-names op r (taken xs ys s)
