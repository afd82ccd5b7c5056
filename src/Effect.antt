-- ===== src/Effect.antt =====
-- Methods that change an object and may throw, and the parts of `std::promise` and of gRPC that the
-- components share: the promise's shared state, and the futures of gh/completion_queue.hpp.
use gee_h.Prelude.{ℕ, Bool, true, false, List, Option, none, some, if◌then◌else◌, ◌==◌}

pub data Exception : Type 0 where
  called_after_shutdown called_before_startup : Exception
  publication_failed lease_rejected assertion_failed : Exception
  rpc_cancelled stream_cancelled writes_done_cancelled finish_cancelled : Exception
  future_already_retrieved promise_already_satisfied broken_promise invalid_argument
        empty_election :
      Exception
  grpc_error : ℕ → Exception
  -- An exception that is known by its text.
  runtime_error : List ℕ → Exception

pub data Outcome {ℓ} (A : Type ℓ) : Type ℓ where
  returns : A → Outcome A
  throws : Exception → Outcome A

abbrev pub is_returns : {A : Type 0} → Outcome A → Bool
is_returns (returns a) = true
is_returns (throws e) = false

-- A method of an object of type `S`: what it did to the object stays when it throws.
abbrev pub M : Type 0 → Type 0 → Type 0
M S A = S → S × Outcome A

abbrev pub and_then : {S A B : Type 0} → S × Outcome A → (A → M S B) → S × Outcome B
and_then (s, returns a) f = f a s
and_then (s, throws e) f = (s, throws e)

infixl 5 ◌>>=◌ ◌>>◌
abbrev pub ◌>>=◌ : {S A B : Type 0} → M S A → (A → M S B) → M S B
◌>>=◌ m f s = and_then (m s) f

abbrev pub ◌>>◌ : {S B : Type 0} → M S (Unit {0}) → M S B → M S B
m >> k = m >>= λ _. k

abbrev pub pure : {S A : Type 0} → A → M S A
pure a s = (s, returns a)

abbrev pub throw : {S A : Type 0} → Exception → M S A
throw e s = (s, throws e)

abbrev pub modify : {S : Type 0} → (S → S) → M S (Unit {0})
modify f s = (f s, returns tt)

abbrev pub when : {S : Type 0} → Bool → M S (Unit {0}) → M S (Unit {0})
when b m s = if b then m s else (s, returns tt)

-- `fut.get()` on a future that is ready.
abbrev pub get : {S A : Type 0} → Outcome A → M S A
get o s = (s, o)

-- The shared state of a promise: whether `get_future()` was called, and the value once it is set.
pub record Promise (A : Type 0) : Type 0 where
  pub retrieved : Bool
  pub value : Option A

abbrev pub unset : {A : Type 0} → Promise A
unset = record { retrieved = false; value = none }

-- `set_value(v)` where the error `promise_already_satisfied` is ignored.
abbrev pub set_value : {A : Type 0} → Promise A → A → Promise A
set_value p v = record {
  retrieved = p.retrieved;
  value = elim p.value [ none ↦ some v | some w ↦ some w ];
}

-- How gRPC completes an operation: `ok` is false if it was cancelled; a status code of 0 is OK.
pub record Completion (R : Type 0) : Type 0 where
  pub ok : Bool
  pub status : ℕ
  pub response : R

-- The future of `async_rpc(..., use_future)` once the operation has completed.
abbrev pub async_rpc_future : {R : Type 0} → Completion R → Outcome R
async_rpc_future c =
    if c.ok
    then (if c.status == 0 then returns c.response else throws (grpc_error c.status))
    else throws rpc_cancelled

-- The futures of `async_create_rdwr_stream`, `async_writes_done` and `async_finish`.
abbrev pub async_create_rdwr_stream_future : Bool → Outcome (Unit {0})
async_create_rdwr_stream_future ok = if ok then returns tt else throws stream_cancelled

abbrev pub async_writes_done_future : Bool → Outcome (Unit {0})
async_writes_done_future ok = if ok then returns tt else throws writes_done_cancelled

abbrev pub async_finish_future : Bool → ℕ → Outcome ℕ
async_finish_future ok status = if ok then returns status else throws finish_cancelled

-- `check_grpc_status` of gh/detail/grpc_errors.hpp; the text of the error is left out.
abbrev pub check_grpc_status : {S : Type 0} → ℕ → M S (Unit {0})
check_grpc_status status s =
    if status == 0 then (s, returns tt) else (s, throws (grpc_error status))
