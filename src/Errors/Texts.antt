-- ===== src/Errors/Texts.antt =====
-- What the text of an exception says.
use mathlib.Core.List.{flat_map, append_assoc, append-nil}
use gee_h.Prelude.{
  ℕ, zero, suc, ◌+◌, ◌-◌, ◌*◌, ◌/◌, ◌%◌, ◌<◌, ◌≡◌, refl, sym, ap, ◌∙◌, Bool, List, [], ◌∷◌, ◌++◌,
  arith, if◌then◌else◌, ◌==◌,
}
use gee_h.Effect.{is_returns}
use gee_h.Log.{decimal, decimal_from}
use gee_h.Errors.{
  Status, Annotation, string, number, print_to_stream, stream_message, stream_annotation,
  append_annotations, grpc_error_text, make_exception, check_grpc_status,
}

-- A reader of numbers: what the digits before a bracket spell behind `n`.
abbrev pub read_code : ℕ → List ℕ → ℕ
read_code n [] = n
read_code n (c ∷ s) = let rest = read_code (n * 10 + (c - b'0')) s in if c == b']' then n else rest

read_code-decimal_from :
    (fuel n : ℕ) (acc s : List ℕ)
    → n < fuel
    → read_code 0 (decimal_from fuel n acc ++ s) ≡ read_code n (acc ++ s)
unfolding decimal_from
read_code-decimal_from zero n acc s h = absurd (ground arith)
read_code-decimal_from (suc fuel) n acc s h =
    ground (arith, read_code-decimal_from fuel (n / 10) ((b'0' + n % 10) ∷ acc) s)

read_code-decimal : (n : ℕ) (s : List ℕ) → read_code 0 (decimal n ++ b']' ∷ s) ≡ n
unfolding decimal
read_code-decimal n s = read_code-decimal_from (suc n) n [] (b']' ∷ s) (omega arith)

append_left_cancel : (xs ys zs : List ℕ) → xs ++ ys ≡ xs ++ zs → ys ≡ zs
append_left_cancel [] ys zs h = h
append_left_cancel (x ∷ xs) ys zs h = append_left_cancel xs ys zs (ground arith)

module _ {Message : Type 0} (print_to_string : Message → Bool × List ℕ) where
  -- What an annotation adds to the stream.
  abbrev pub shown : Annotation Message → List ℕ
  shown (string s) = s
  shown (number n) = decimal n
  shown (print_to_stream m) = let (_, formatted) = print_to_string m in formatted

  stream_annotation_lem :
      (os : List ℕ) (t : Annotation Message)
      → stream_annotation print_to_string os t ≡ os ++ shown t
  unfolding stream_annotation stream_message
  stream_annotation_lem os (string s) = refl
  stream_annotation_lem os (number n) = refl
  stream_annotation_lem os (print_to_stream m) = refl

  -- The annotations are written in their order, with nothing between them.
  append_annotations_lem :
      (os : List ℕ) (a : List (Annotation Message))
      → append_annotations print_to_string os a ≡ os ++ flat_map shown a
  unfolding append_annotations flat_map
  append_annotations_lem os [] = sym (append-nil os)
  append_annotations_lem os (t ∷ []) = simp (stream_annotation_lem os t, append-nil)
  append_annotations_lem os (h ∷ t ∷ ts) = simp (stream_annotation_lem os h) (
      append_annotations_lem (os ++ shown h) (t ∷ ts)
      ∙ append_assoc os (shown h) (flat_map shown (t ∷ ts)))

  -- The text before the code.
  before_code : List ℕ → List ℕ → List ℕ
  before_code place message = place ++ grpc_error_text ++ message ++ b' ' ∷ b'[' ∷ []

  -- What is written behind the code.
  abbrev behind_code : List (Annotation Message) → List ℕ
  behind_code a = b']' ∷ flat_map shown a

  -- The text of the exception: the place, the message, the code in brackets, and the annotations.
  make_exception_lem :
      (s : Status) (place : List ℕ) (a : List (Annotation Message))
      → make_exception print_to_string s place a
        ≡ before_code place s.error_message ++ (decimal s.error_code ++ behind_code a)
  unfolding make_exception before_code
  make_exception_lem s place a = simp (append_annotations_lem, append_assoc)

  make_exception-injective :
      (s t : Status) (place : List ℕ) (a b : List (Annotation Message))
      → s.error_message ≡ t.error_message
      → make_exception print_to_string s place a ≡ make_exception print_to_string t place b
      → s.error_code ≡ t.error_code
  make_exception-injective s t place a b same texts =
      let behind : decimal s.error_code ++ behind_code a ≡ decimal t.error_code ++ behind_code b =
        append_left_cancel (before_code place t.error_message) _ _
          (simp (make_exception_lem, same) at texts) in
      sym (read_code-decimal s.error_code (flat_map shown a))
      ∙ ap (read_code 0) behind
      ∙ read_code-decimal t.error_code (flat_map shown b)

  -- If two statuses with the same message are checked at the same place with any annotations, and the
  -- outcomes agree, then the codes agree too, and the check returns exactly if the code is 0. So the text
  -- of an exception tells the code.
  pub check_grpc_status-injective :
      (s t : Status) (place : List ℕ) (a b : List (Annotation Message))
      → s.error_message ≡ t.error_message
      → check_grpc_status print_to_string s place a ≡ check_grpc_status print_to_string t place b
      → (s.error_code ≡ t.error_code)
        × (is_returns (check_grpc_status print_to_string s place a) ≡ (s.error_code == 0))
  unfolding check_grpc_status
  check_grpc_status-injective s t place a b same outcome =
      (ground (arith, make_exception-injective s t place a b same), ground arith)
