-- ===== src/Log.antt =====
-- gh/log.hpp and .cpp, gh/log_severity.hpp and .cpp, gh/log_sink.hpp: messages with a severity, the
-- sinks that they go to, and the macro that formats a message only if it is enabled.
pub mod Lines
pub mod Sinks
mod Tests
use gee_h.Prelude.{
  ℕ, zero, suc, ◌+◌, ◌/◌, ◌%◌, Bool, true, false, not, ◌&&◌, ◌||◌, List, [], ◌∷◌, ◌++◌, Option,
  none, some, if◌then◌else◌, ltb,
}
use gee_h.Candidate.Query.{is_empty}

pub data Severity : Type 0 where
  trace debug info notice warning error critical alert fatal : Severity

-- `int(x)`
abbrev pub int_of : Severity → ℕ
int_of trace = 0
int_of debug = 1
int_of info = 2
int_of notice = 3
int_of warning = 4
int_of error = 5
int_of critical = 6
int_of alert = 7
int_of fatal = 8

abbrev pub highest : Severity
highest = fatal

abbrev pub lowest : Severity
lowest = trace

-- `GH_MIN_SEVERITY`, by which messages are disabled at compile time.
abbrev pub lowest_enabled : Severity
lowest_enabled = info

abbrev pub names : List (List ℕ)
names =
    (b't' ∷ b'r' ∷ b'a' ∷ b'c' ∷ b'e' ∷ [])
    ∷ (b'd' ∷ b'e' ∷ b'b' ∷ b'u' ∷ b'g' ∷ [])
    ∷ (b'i' ∷ b'n' ∷ b'f' ∷ b'o' ∷ [])
    ∷ (b'n' ∷ b'o' ∷ b't' ∷ b'i' ∷ b'c' ∷ b'e' ∷ [])
    ∷ (b'w' ∷ b'a' ∷ b'r' ∷ b'n' ∷ b'i' ∷ b'n' ∷ b'g' ∷ [])
    ∷ (b'e' ∷ b'r' ∷ b'r' ∷ b'o' ∷ b'r' ∷ [])
    ∷ (b'c' ∷ b'r' ∷ b'i' ∷ b't' ∷ b'i' ∷ b'c' ∷ b'a' ∷ b'l' ∷ [])
    ∷ (b'a' ∷ b'l' ∷ b'e' ∷ b'r' ∷ b't' ∷ [])
    ∷ (b'f' ∷ b'a' ∷ b't' ∷ b'a' ∷ b'l' ∷ [])
    ∷ []

-- The element of an array, or none beyond its end.
abbrev pub element {ℓ} : {A : Type ℓ} → List A → ℕ → Option A
element [] i = none
element (x ∷ xs) zero = some x
element (x ∷ xs) (suc i) = element xs i

-- `operator<<`: none stands for a read beyond the array.
unfoldable pub print_severity : Severity → Option (List ℕ)
print_severity x = element names (int_of x)

-- `x < y` on the enumeration.
abbrev pub below : Severity → Severity → Bool
below x y = ltb (int_of x) (int_of y)

-- A stream without a state.
pub data NullStream : Type 0 where
  null_stream : NullStream

-- `operator<<`, for every type.
abbrev pub stream_nothing {ℓ} : {T : Type ℓ} → NullStream → T → NullStream
stream_nothing n _ = n

-- One call of a sink, which is known by a number.
pub record Logged : Type 0 where
  pub sink : ℕ
  pub severity : Severity
  pub message : List ℕ

pub record Log : Type 0 where
  pub min_severity : Severity
  pub sinks : List ℕ

unfoldable pub new : Log
new = record { min_severity = lowest; sinks = [] }

unfoldable pub add_sink : ℕ → Log → Log
add_sink s lg = record lg { sinks = lg.sinks ++ s ∷ [] }

unfoldable pub clear_sinks : Log → Log
clear_sinks lg = record lg { sinks = [] }

unfoldable pub set_min_severity : Severity → Log → Log
set_min_severity sev lg = record lg { min_severity = sev }

-- The method of the same name that returns it.
unfoldable pub get_min_severity : Log → Severity
get_min_severity lg = lg.min_severity

-- The loop over the sinks; each gets a copy of the message.
unfoldable pub log_to_all : List ℕ → Severity → List ℕ → List Logged
log_to_all [] sev msg = []
log_to_all (s ∷ ss) sev msg =
    record { sink = s; severity = sev; message = msg } ∷ log_to_all ss sev msg

abbrev pub log_to_sinks : List ℕ → Severity → List ℕ → List Logged
log_to_sinks (s ∷ []) sev msg = record { sink = s; severity = sev; message = msg } ∷ []
log_to_sinks ss sev msg = log_to_all ss sev msg

-- `write()`, with its special case of one sink.
unfoldable pub write : Severity → List ℕ → Log → List Logged
unfolding log_to_all
write sev msg lg =
    if is_empty lg.sinks || below sev lg.min_severity then [] else log_to_sinks lg.sinks sev msg

unfoldable pub decimal_from : ℕ → ℕ → List ℕ → List ℕ
decimal_from zero n acc = acc
decimal_from (suc fuel) n acc =
    let digits = (b'0' + n % 10) ∷ acc in
    let more = decimal_from fuel (n / 10) digits in if ltb n 10 then digits else more

-- An `int` that is not negative, on a stream.
unfoldable pub decimal : ℕ → List ℕ
unfolding decimal_from
decimal n = decimal_from (suc n) n []

-- `logger<true>`: all that it has is a stream that does nothing.
pub record DisabledLogger : Type 0 where
  pub os : NullStream

-- The constructor, which reads nothing.
unfoldable pub open_disabled : Severity → List ℕ → List ℕ → ℕ → Log → DisabledLogger
open_disabled sev function filename lineno lg = record { os = null_stream }

-- `operator bool()`
unfoldable pub disabled_bool : DisabledLogger → Bool
disabled_bool l = false

unfoldable pub disabled_get : DisabledLogger → NullStream
disabled_get l = l.os

-- What the sinks get.
unfoldable pub disabled_write_to : Log → DisabledLogger → List Logged
disabled_write_to lg l = []

-- `logger<false>`: the stream is the text so far.
pub record Logger : Type 0 where
  pub os : List ℕ
  pub sev : Severity
  pub function : List ℕ
  pub filename : List ℕ
  pub lineno : ℕ
  pub closed : Bool

abbrev pub name_of : Option (List ℕ) → List ℕ
name_of none = []
name_of (some name) = name

-- The constructor; the location of a closed logger is not set, and never read.
unfoldable pub open_logger : Severity → List ℕ → List ℕ → ℕ → Log → Logger
unfolding print_severity
open_logger sev function filename lineno lg = record {
  os =
      if below sev lg.min_severity
      then []
      else b'[' ∷ name_of (print_severity sev) ++ b']' ∷ b' ' ∷ [];
  sev = sev;
  function = function;
  filename = filename;
  lineno = lineno;
  closed = below sev lg.min_severity;
}

-- ` in f (file:line)`
unfoldable pub location : Logger → List ℕ
unfolding decimal
location l =
    b' ' ∷ b'i' ∷ b'n' ∷ b' ' ∷ l.function
    ++ b' ' ∷ b'(' ∷ l.filename
    ++ b':' ∷ decimal l.lineno
    ++ b')' ∷ []

unfoldable pub write_to : Log → Logger → Logger × List Logged
unfolding location write
write_to lg l =
    let text = l.os ++ location l in (record l { closed = true; os = text }, write l.sev text lg)

unfoldable pub level_compile_time_disabled : Severity → Bool
level_compile_time_disabled lvl = below lvl lowest_enabled
