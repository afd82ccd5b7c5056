-- ===== src/Queue/Destroy.antt =====
-- `~base_completion_queue()`, which only logs the operations that it still holds.
use gee_h.Prelude.{
  codes, ℕ, ◌+◌, ◌≡◌, ◌↔◌, refl, List, [], ◌∷◌, ◌++◌, Option, none, some, arith, length, ap,
}
use gee_h.Log.{decimal}
use gee_h.Queue.{Entry, Queue, new}
use gee_h.Queue.Calls.{Use, used, times, times_held, times_called, called_once}

module _ {A : Type 0} (name_of : A → List ℕ) where
  -- The loop over the operations: each name on a line. The order of an unordered map is any.
  unfoldable pub names_of : List (Entry A) → List ℕ
  names_of [] = []
  names_of (e ∷ es) = name_of e.op ++ b'\n' ∷ names_of es

  -- The message that is logged with the severity `error`, if any.
  unfoldable pub message_of : List (Entry A) → Option (List ℕ)
  unfolding names_of decimal
  message_of [] = none
  message_of (e ∷ es) = some (
      codes " completion queue deleted while holding "
      ++ decimal (length (e ∷ es))
      ++ codes " pending operations: "
      ++ names_of (e ∷ es))

  unfoldable pub destroy : Queue A → Option (List ℕ)
  unfolding message_of
  destroy q = message_of q.pending_ops

  message_of-none : (es : List (Entry A)) → message_of es ≡ none → es ≡ []
  unfolding message_of
  message_of-none [] h = refl
  message_of-none (e ∷ es) h = absurd (ground arith)

  nothing_held : (es : List (Entry A)) → ((t : ℕ) → times_held t es ≡ 0) → message_of es ≡ none
  unfolding message_of
  nothing_held [] h = refl
  nothing_held (e ∷ es) h = absurd (ground (arith, h e.tag))

  silent_of_called :
      (q : Queue A)
      → ((t : ℕ) → times_called t q.calls + times_held t q.pending_ops ≡ times t q.accepted)
      → ((t : ℕ) → times_called t q.calls ≡ times t q.accepted)
      → destroy q ≡ none
  unfolding destroy
  silent_of_called q balance called =
      nothing_held q.pending_ops (λ t. omega (arith, balance t, called t))

  called_of_silent :
      (q : Queue A)
      → ((t : ℕ) → times_called t q.calls + times_held t q.pending_ops ≡ times t q.accepted)
      → destroy q ≡ none
      → (t : ℕ) → times_called t q.calls ≡ times t q.accepted
  unfolding destroy
  called_of_silent q balance silent t =
      let empty = message_of-none q.pending_ops silent in
      omega (arith, balance t, ap (times_held t) empty)

  -- After any history of a completion queue, its destructor logs nothing exactly when the callbacks of
  -- all operations that were registered have been called.
  pub destroy_silent :
      (es : List (Use A))
      → let q = used es new in
        ((t : ℕ) → times_called t q.calls ≡ times t q.accepted) ↔ (destroy q ≡ none)
  destroy_silent es =
      let q = used es new in
      let balance = λ (t : ℕ). (called_once t es).0 in
      (silent_of_called q balance, called_of_silent q balance)
