-- ===== src/Log/Tests.antt =====
-- gh/log_ut.cpp, gh/log_severity_ut.cpp and gh/log_sink_ut.cpp on the model: the tests' logs, messages and expectations.
use gee_h.Prelude.{
  codes, ℕ, ◌≡◌, refl, Bool, true, false, ◌||◌, List, [], ◌∷◌, ◌++◌, Option, none, some,
  if◌then◌else◌, length,
}
use gee_h.Log.{
  Severity, trace, debug, info, notice, warning, error, critical, alert, fatal, lowest, highest,
  NullStream, null_stream, stream_nothing, DisabledLogger, open_disabled, disabled_bool,
  disabled_get, disabled_write_to, print_severity, below, Logged, Log, new, add_sink, clear_sinks,
  set_min_severity, log_to_all, write, decimal, decimal_from, open_logger, location, write_to,
  level_compile_time_disabled,
}
use gee_h.Log.Sinks.{
  LogSink, make_log_sink, log_to_functor, LogUse, adds, clears, sets, writes, calls_of, calls_to,
  promised, calls_to-new,
}
use gee_h.Log.Lines.{log_line, log_loop, one_round, line, log_line_once}

-- `"testing 123" << " " << 42`
abbrev testing_123_42 : List ℕ
testing_123_42 = codes "testing 123 42"

-- `"foo" << 4 << 2`
abbrev foo_42 : List ℕ
foo_42 = codes "foo42"

abbrev test_body : List ℕ
test_body = codes "TestBody"

abbrev log_ut_cpp : List ℕ
log_ut_cpp = codes "log_ut"

-- `GH_LOG_I(level, lg) << text` in a test: what the sinks got, the evaluations of the text, the end.
unfoldable gh_log_i : Severity → ℕ → List ℕ → Log → List Logged × ℕ × Bool
unfolding log_line log_loop one_round write_to open_logger print_severity write log_to_all location
    decimal decimal_from level_compile_time_disabled
gh_log_i level lineno text lg = log_line 2 level test_body log_ut_cpp lineno text lg

-- The sink of the tests appends to a vector.
abbrev logs : ℕ
logs = 1

abbrev second_sink : ℕ
second_sink = 2

-- `TEST(log, basic)`: a line before there is a sink, then one with a sink.
unfoldable basic_logs : List Logged
unfolding gh_log_i new add_sink
basic_logs =
    (gh_log_i error 12 foo_42 new).0 ++ (gh_log_i error 19 testing_123_42 (add_sink logs new)).0

basic_test :
    basic_logs
    ≡ record {
      sink = logs;
      severity = error;
      message =
          b'[' ∷ b'e' ∷ b'r' ∷ b'r' ∷ b'o' ∷ b'r' ∷ b']' ∷ b' ' ∷ testing_123_42
          ++ b' ' ∷ b'i' ∷ b'n' ∷ b' ' ∷ test_body
          ++ b' ' ∷ b'(' ∷ log_ut_cpp
          ++ codes ":19)";
    }
      ∷ []
unfolding basic_logs
basic_test = refl

-- `TEST(log, run_time_disable)`: an enabled line, and one below the minimum severity.
unfoldable run_time_enabled : List Logged × ℕ × Bool
unfolding gh_log_i new add_sink
run_time_enabled = gh_log_i info 37 testing_123_42 (add_sink logs new)

unfoldable run_time_disabled : List Logged × ℕ × Bool
unfolding gh_log_i new add_sink set_min_severity
run_time_disabled = gh_log_i info 52 testing_123_42 (set_min_severity warning (add_sink logs new))

run_time_enabled_test : length run_time_enabled.0 ≡ 1
unfolding run_time_enabled
run_time_enabled_test = refl

run_time_disabled_test : run_time_disabled ≡ ([], 0, true)
unfolding run_time_disabled
run_time_disabled_test = refl

-- `TEST(log, compile_time_disable)`: a line that is enabled at run time only.
unfoldable compile_time_disabled : List Logged × ℕ × Bool
unfolding gh_log_i new add_sink set_min_severity
compile_time_disabled =
    gh_log_i debug 79 testing_123_42 (set_min_severity trace (add_sink logs new))

compile_time_disabled_test : compile_time_disabled ≡ ([], 0, true)
unfolding compile_time_disabled
compile_time_disabled_test = refl

-- `TEST(log, instance_basic)`: the singleton with one sink, then without any.
unfoldable instance_logs : List Logged
unfolding gh_log_i new add_sink
instance_logs = (gh_log_i info 96 testing_123_42 (add_sink logs new)).0

unfoldable instance_cleared : Log
unfolding new add_sink clear_sinks
instance_cleared = clear_sinks (add_sink logs new)

instance_test : (length instance_logs ≡ 1) × (instance_cleared.sinks ≡ [])
unfolding instance_logs instance_cleared
instance_test = (refl, refl)

-- `TEST(log, multiple_sinks)`: both sinks get the line.
unfoldable two_sinks : Log
unfolding new add_sink
two_sinks = add_sink second_sink (add_sink logs new)

unfoldable multiple_logs : List Logged
unfolding gh_log_i new two_sinks
multiple_logs = (gh_log_i error 109 foo_42 new).0 ++ (gh_log_i error 119 testing_123_42 two_sinks).0

abbrev sinks_of : List Logged → List ℕ
sinks_of [] = []
sinks_of (x ∷ xs) = x.sink ∷ sinks_of xs

multiple_sinks_test : sinks_of multiple_logs ≡ logs ∷ second_sink ∷ []
unfolding multiple_logs
multiple_sinks_test = refl

log_line_once_example : log_line 2 error test_body log_ut_cpp 119 testing_123_42 two_sinks ≡ (
    if level_compile_time_disabled error || below error two_sinks.min_severity
    then ([], 0, true)
    else (
      log_to_all two_sinks.sinks error (line error test_body log_ut_cpp 119 testing_123_42),
      1,
      true,
    ))
log_line_once_example = log_line_once 0 error test_body log_ut_cpp 119 testing_123_42 two_sinks

abbrev joined : Option (List ℕ) → Option (List ℕ) → Option (List ℕ)
joined none ys = none
joined (some xs) none = none
joined (some xs) (some ys) = some (xs ++ b' ' ∷ ys)

-- `TEST(log_severity, base)`: the text of all severities with blanks between them.
abbrev printed : List Severity → Option (List ℕ)
printed [] = some []
printed (x ∷ []) = print_severity x
printed (x ∷ y ∷ ys) = joined (print_severity x) (printed (y ∷ ys))

unfoldable log_severity_base : Option (List ℕ)
unfolding print_severity
log_severity_base =
    printed (trace ∷ debug ∷ info ∷ notice ∷ warning ∷ error ∷ critical ∷ alert ∷ fatal ∷ [])

log_severity_base_test :
    (below lowest highest ≡ true)
    × (log_severity_base
        ≡ some (codes "trace debug info notice warning error critical alert fatal"))
unfolding log_severity_base
log_severity_base_test = (refl, refl)

-- `TEST(log, logger_disabled)`: whether the logger is open, the stream after the user's expression,
-- and what the sinks got.
unfoldable logger_disabled : Bool × NullStream × List Logged
unfolding open_disabled disabled_bool disabled_get disabled_write_to new add_sink
logger_disabled =
    let lg : Log = add_sink logs new in
    let l : DisabledLogger = open_disabled error test_body log_ut_cpp 144 lg in
    (disabled_bool l, stream_nothing (disabled_get l) testing_123_42, disabled_write_to lg l)

logger_disabled_test : logger_disabled ≡ (false, null_stream, [])
unfolding logger_disabled
logger_disabled_test = refl

-- `TEST(log_sink, basic)`: the functor keeps the severity and the text of the last message.
unfoldable log_sink_basic : Severity × List ℕ
unfolding make_log_sink log_to_functor
log_sink_basic =
    let ls : LogSink (Severity × List ℕ) = make_log_sink (λ s m kept. (s, m)) in
    log_to_functor ls info testing_123_42 (fatal, [])

log_sink_basic_test : log_sink_basic ≡ (info, testing_123_42)
unfolding log_sink_basic
log_sink_basic_test = refl

-- One sink is added twice, and the severity is raised between two messages.
abbrev uses : List LogUse
uses =
    adds logs
    ∷ adds second_sink
    ∷ adds logs
    ∷ writes info foo_42
    ∷ sets error
    ∷ writes info foo_42
    ∷ writes error foo_42
    ∷ clears
    ∷ writes error foo_42
    ∷ []

uses_test : length (calls_to logs (calls_of uses new)) ≡ 4
unfolding calls_of new add_sink clear_sinks set_min_severity write log_to_all
uses_test = refl

calls_to-new_example : calls_to logs (calls_of uses new) ≡ promised logs 0 lowest uses
calls_to-new_example = calls_to-new logs uses
