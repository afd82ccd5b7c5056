-- ===== src/Log/Sinks.antt =====
-- gh/log_sink.hpp, and what one sink receives of all that is written to a log.
use gee_h.Prelude.{
  ℕ, zero, suc, ◌≡◌, refl, ap, ◌∙◌, List, [], ◌∷◌, ◌++◌, if◌then◌else◌, ◌==◌, arith, Bool-cases,
  inl, inr, ap₂,
}
use gee_h.Log.{
  Severity, lowest, below, Logged, Log, new, add_sink, clear_sinks, set_min_severity, log_to_all,
  write,
}
use gee_h.Log.Lines.{write-log_to_all}

-- `log_to_functor`: a functor that changes a state of type `S`.
pub record LogSink (S : Type 0) : Type 0 where
  pub functor : Severity → List ℕ → S → S

unfoldable pub make_log_sink : {S : Type 0} → (Severity → List ℕ → S → S) → LogSink S
make_log_sink f = record { functor = f }

-- `log()` forwards to the functor.
unfoldable pub log_to_functor : {S : Type 0} → LogSink S → Severity → List ℕ → S → S
log_to_functor l sev message s = l.functor sev message s

-- What a program does with a log.
pub data LogUse : Type 0 where
  adds : ℕ → LogUse
  clears : LogUse
  sets : Severity → LogUse
  writes : Severity → List ℕ → LogUse

-- All calls of the sinks, in order.
unfoldable pub calls_of : List LogUse → Log → List Logged
unfolding add_sink clear_sinks set_min_severity write
calls_of [] lg = []
calls_of (adds s ∷ us) lg = calls_of us (add_sink s lg)
calls_of (clears ∷ us) lg = calls_of us (clear_sinks lg)
calls_of (sets sev ∷ us) lg = calls_of us (set_min_severity sev lg)
calls_of (writes sev msg ∷ us) lg = write sev msg lg ++ calls_of us lg

-- The calls of one sink.
abbrev pub calls_to : ℕ → List Logged → List Logged
calls_to s [] = []
calls_to s (c ∷ cs) = if c.sink == s then c ∷ calls_to s cs else calls_to s cs

abbrev pub copies : ℕ → Logged → List Logged
copies zero c = []
copies (suc n) c = c ∷ copies n c

-- What a sink is promised: it was added `n` times since the sinks were last cleared, and gets each
-- message that is not below the minimum severity as often.
abbrev pub promised : ℕ → ℕ → Severity → List LogUse → List Logged
promised s n min [] = []
promised s n min (adds t ∷ us) = promised s (if t == s then suc n else n) min us
promised s n min (clears ∷ us) = promised s 0 min us
promised s n min (sets sev ∷ us) = promised s n sev us
promised s n min (writes sev msg ∷ us) =
    let now = copies n (record { sink = s; severity = sev; message = msg }) in
    (if below sev min then [] else now) ++ promised s n min us

abbrev added : ℕ → List ℕ → ℕ
added s [] = 0
added s (t ∷ ts) = if t == s then suc (added s ts) else added s ts

added-append :
    (s t : ℕ) (ts : List ℕ)
    → added s (ts ++ t ∷ []) ≡ (if t == s then suc (added s ts) else added s ts)
added-append s t [] = refl
added-append s t (u ∷ us) = ground (arith, added-append s t us)

calls_to-append :
    (s : ℕ) (cs ds : List Logged) → calls_to s (cs ++ ds) ≡ calls_to s cs ++ calls_to s ds
calls_to-append s [] ds = refl
calls_to-append s (c ∷ cs) ds = ground (arith, calls_to-append s cs ds)

calls_to-log_to_all :
    (s : ℕ) (ts : List ℕ) (sev : Severity) (msg : List ℕ)
    → calls_to s (log_to_all ts sev msg)
      ≡ copies (added s ts) (record { sink = s; severity = sev; message = msg })
unfolding log_to_all
calls_to-log_to_all s [] sev msg = refl
calls_to-log_to_all s (t ∷ ts) sev msg = ground (arith, calls_to-log_to_all s ts sev msg)

calls_to-write :
    (s : ℕ) (sev : Severity) (msg : List ℕ) (lg : Log)
    → calls_to s (write sev msg lg) ≡ (
        if below sev lg.min_severity
        then []
        else copies (added s lg.sinks) (record { sink = s; severity = sev; message = msg }))
calls_to-write s sev msg lg = elim (Bool-cases (below sev lg.min_severity)) [
  | inl low ↦ simp (write-log_to_all, low) refl
  | inr high ↦ simp (write-log_to_all, high) (calls_to-log_to_all s lg.sinks sev msg)
]

calls_to-calls_of :
    (s : ℕ) (us : List LogUse) (lg : Log)
    → calls_to s (calls_of us lg) ≡ promised s (added s lg.sinks) lg.min_severity us
unfolding calls_of add_sink clear_sinks set_min_severity
calls_to-calls_of s [] lg = refl
calls_to-calls_of s (adds t ∷ us) lg =
    calls_to-calls_of s us (add_sink t lg)
    ∙ ap (λ n. promised s n lg.min_severity us) (added-append s t lg.sinks)
calls_to-calls_of s (clears ∷ us) lg = calls_to-calls_of s us (clear_sinks lg)
calls_to-calls_of s (sets sev ∷ us) lg = calls_to-calls_of s us (set_min_severity sev lg)
calls_to-calls_of s (writes sev msg ∷ us) lg =
    calls_to-append s (write sev msg lg) (calls_of us lg)
    ∙ ap₂ (λ xs ys. xs ++ ys) (calls_to-write s sev msg lg) (calls_to-calls_of s us lg)

-- What a sink receives over any use of a log depends on no other sink: as often as it was added since
-- the sinks were last cleared, it gets every message that is not below the minimum severity at the
-- time, in order.
pub calls_to-new :
    (s : ℕ) (us : List LogUse) → calls_to s (calls_of us new) ≡ promised s 0 lowest us
unfolding new
calls_to-new s us = calls_to-calls_of s us new
