-- ===== src/Errors/Tests.antt =====
-- gh/detail/grpc_errors_ut.cpp, gh/assert_throw_ut.cpp, gh/detail/stream_future_status_ut.cpp and
-- gh/detail/null_stream_ut.cpp on the model. `PrintToString` prints the one kind of message that the
-- tests use, a request that holds an identifier.
use gee_h.Prelude.{
  codes, ℕ, ◌≡◌, refl, Bool, true, false, List, [], ◌∷◌, ◌++◌, Option, none, some, if◌then◌else◌,
  ◌==◌,
}
use gee_h.Effect.{Outcome, is_returns, returns, throws, runtime_error}
use gee_h.Log.{decimal, decimal_from, NullStream, null_stream, stream_nothing}
use gee_h.Errors.{
  Status, string, number, print_to_stream, stream_message, stream_annotation, append_annotations,
  make_exception, check_grpc_status,
}
use gee_h.Errors.Texts.{check_grpc_status-injective}
use gee_h.Errors.Streams.{
  assert_throw_impl, gh_assert_throw, ready, timeout, deferred, unknown, stream_future_status,
}

-- A request is its identifier, which is printed unless it is the default, 0.
unfoldable print_to_string : ℕ → Bool × List ℕ
unfolding decimal decimal_from
print_to_string id =
    (true, if id == 0 then [] else b'I' ∷ b'D' ∷ b':' ∷ b' ' ∷ decimal id ++ b'\n' ∷ [])

-- `grpc::Status::OK`
abbrev status_ok : Status
status_ok = record { error_code = 0; error_message = [] }

-- `grpc::Status(grpc::UNKNOWN, "bad thing")`
abbrev bad_thing : Status
bad_thing = record { error_code = 2; error_message = codes "bad thing" }

abbrev test_text : List ℕ
test_text = codes "test"

abbrev request_text : List ℕ
request_text = codes "request="

abbrev in_iteration_text : List ℕ
in_iteration_text = codes " in iteration="

-- `TEST(grpc_errors, check_grpc_status_ok)`
unfoldable check_grpc_status_ok : Outcome (Unit {0}) × Outcome (Unit {0})
unfolding check_grpc_status make_exception append_annotations stream_annotation stream_message
    print_to_string decimal decimal_from
check_grpc_status_ok = (
  check_grpc_status print_to_string status_ok test_text [],
  check_grpc_status print_to_string status_ok test_text (
      string in_iteration_text
      ∷ number 42
      ∷ string (b',' ∷ b' ' ∷ request_text)
      ∷ print_to_stream 0
      ∷ []),
)

check_grpc_status_ok_test : check_grpc_status_ok ≡ (returns tt, returns tt)
unfolding check_grpc_status_ok
check_grpc_status_ok_test = refl

-- `TEST(grpc_errors, check_grpc_status_error_annotations)`
unfoldable check_grpc_status_error_annotations : Outcome (Unit {0})
unfolding check_grpc_status make_exception append_annotations stream_annotation stream_message
    print_to_string decimal decimal_from
check_grpc_status_error_annotations =
    check_grpc_status print_to_string bad_thing test_text
      (string (b' ' ∷ request_text) ∷ print_to_stream 42 ∷ [])

-- "test grpc error: bad thing [2]"
abbrev bare_text : List ℕ
bare_text = codes "test grpc error: bad thing [2]"

-- "ID: 42" on a line
abbrev id_42 : List ℕ
id_42 = codes "ID: 42\n"

check_grpc_status_error_annotations_test :
    check_grpc_status_error_annotations
    ≡ throws (runtime_error (bare_text ++ b' ' ∷ request_text ++ id_42))
unfolding check_grpc_status_error_annotations
check_grpc_status_error_annotations_test = refl

-- `TEST(grpc_errors, check_grpc_status_error_bare)`
unfoldable check_grpc_status_error_bare : Outcome (Unit {0})
unfolding check_grpc_status make_exception append_annotations decimal decimal_from print_to_string
check_grpc_status_error_bare = check_grpc_status print_to_string bad_thing test_text []

check_grpc_status_error_bare_test : check_grpc_status_error_bare ≡ throws (runtime_error bare_text)
unfolding check_grpc_status_error_bare
check_grpc_status_error_bare_test = refl

-- `TEST(grpc_errors, print_to_stream_basic)`
unfoldable print_to_stream_basic : List ℕ
unfolding stream_message print_to_string decimal decimal_from
print_to_stream_basic = stream_message print_to_string [] 42

print_to_stream_basic_test : print_to_stream_basic ≡ id_42
unfolding print_to_stream_basic
print_to_stream_basic_test = refl

-- `TEST(assert_throw, basic)`: whether each of the three calls raises.
abbrev raises : Outcome (Unit {0}) → Bool
raises (returns _) = false
raises (throws _) = true

abbrev foo_text : List ℕ
foo_text = codes "foo"

abbrev bar_text : List ℕ
bar_text = codes "bar()"

abbrev bar_cc : List ℕ
bar_cc = codes "bar.cc"

unfoldable assert_throw_basic : Bool × Bool × Bool
unfolding assert_throw_impl gh_assert_throw decimal decimal_from
assert_throw_basic = (
  raises (assert_throw_impl foo_text bar_text bar_cc 20),
  raises (gh_assert_throw false foo_text bar_text bar_cc 11),
  raises (gh_assert_throw true foo_text bar_text bar_cc 12),
)

assert_throw_basic_test : assert_throw_basic ≡ (true, true, false)
unfolding assert_throw_basic
assert_throw_basic_test = refl

-- `TEST(stream_future_status, basic)`: the three enumerators on a stream, and another value after
-- them.
abbrev then_stream : Option (List ℕ) → (List ℕ → Option (List ℕ)) → Option (List ℕ)
then_stream none f = none
then_stream (some os) f = f os

unfoldable stream_three : Option (List ℕ)
unfolding stream_future_status
stream_three = then_stream (stream_future_status [] deferred) λ os.
    then_stream (stream_future_status (os ++ b' ' ∷ []) ready)
      λ os. stream_future_status (os ++ b' ' ∷ []) timeout

unfoldable stream_invalid : Option (List ℕ)
unfolding stream_three stream_future_status
stream_invalid = then_stream stream_three (λ os. stream_future_status os unknown)

stream_future_status_test :
    (stream_three ≡ some (codes "[deferred] [ready] [timeout]")) × (stream_invalid ≡ none)
unfolding stream_three stream_invalid
stream_future_status_test = (refl, refl)

-- `TEST(null_stream, base)`: a string, then a string, a number and a string.
abbrev null_stream_base : NullStream
null_stream_base =
    let n : NullStream = stream_nothing null_stream foo_text in
    stream_nothing (stream_nothing {T = ℕ} (stream_nothing n bar_text) 42) test_text

null_stream_test : null_stream_base ≡ null_stream
null_stream_test = refl

check_grpc_status-injective_example :
    (bad_thing.error_code ≡ 2)
    × (is_returns (check_grpc_status print_to_string bad_thing test_text (number 7 ∷ []))
        ≡ (bad_thing.error_code == 0))
check_grpc_status-injective_example =
    check_grpc_status-injective print_to_string bad_thing (record bad_thing { error_code = 2 })
      test_text (number 7 ∷ []) (number 7 ∷ []) refl refl
