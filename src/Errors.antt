-- ===== src/Errors.antt =====
-- gh/detail/grpc_errors.hpp and .cpp, gh/detail/append_annotations.hpp: the text of the exception
-- that reports a status of gRPC. A stream is the text written to it. Protobuf's `PrintToString` is a
-- parameter: whether it succeeded, and what it left in the string.
pub mod Texts
pub mod Streams
mod Tests
use gee_h.Prelude.{codes, ℕ, Bool, List, [], ◌∷◌, ◌++◌, if◌then◌else◌, ◌==◌}
use gee_h.Effect.{Outcome, returns, throws, runtime_error}
use gee_h.Log.{decimal}

-- `grpc::Status`, as far as it is read.
pub record Status : Type 0 where
  pub error_code : ℕ
  pub error_message : List ℕ

abbrev pub ok : Status → Bool
ok s = s.error_code == 0

-- What the callers annotate with: strings, numbers, and protobufs of the type `Message`.
pub data Annotation (Message : Type 0) : Type 0 where
  string : List ℕ → Annotation Message
  number : ℕ → Annotation Message
  print_to_stream : Message → Annotation Message

abbrev pub grpc_error_text : List ℕ
grpc_error_text = codes " grpc error: "

module _ {Message : Type 0} (print_to_string : Message → Bool × List ℕ) where
  -- `operator<<` for a `print_to_stream`, which ignores whether the printing succeeded.
  unfoldable pub stream_message : List ℕ → Message → List ℕ
  stream_message os m = let (_, formatted) = print_to_string m in os ++ formatted

  -- `os << t`
  unfoldable pub stream_annotation : List ℕ → Annotation Message → List ℕ
  unfolding stream_message decimal
  stream_annotation os (string s) = os ++ s
  stream_annotation os (number n) = os ++ decimal n
  stream_annotation os (print_to_stream m) = stream_message os m

  -- The overloads for no annotation, for one, and for more.
  unfoldable pub append_annotations : List ℕ → List (Annotation Message) → List ℕ
  unfolding stream_annotation
  append_annotations os [] = os
  append_annotations os (t ∷ []) = stream_annotation os t
  append_annotations os (h ∷ t ∷ ts) = append_annotations (stream_annotation os h) (t ∷ ts)

  -- `os << where << " grpc error: " << status.error_message() << " [" << status.error_code() << "]"`
  -- and the annotations.
  unfoldable pub make_exception : Status → List ℕ → List (Annotation Message) → List ℕ
  unfolding append_annotations decimal
  make_exception s place a =
      let os = place ++ grpc_error_text in
      let os = os ++ s.error_message in
      let os = (os ++ codes " [") ++ decimal s.error_code in append_annotations (os ++ b']' ∷ []) a

  unfoldable pub check_grpc_status :
      Status → List ℕ → List (Annotation Message) → Outcome (Unit {0})
  unfolding make_exception
  check_grpc_status s place a =
      if ok s then returns tt else throws (runtime_error (make_exception s place a))
