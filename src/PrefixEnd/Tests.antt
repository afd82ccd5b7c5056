-- ===== src/PrefixEnd/Tests.antt =====
-- The cases of prefix_end_ut.cpp, and the theorems at small keys.
use gee_h.Prelude.{ℕ, ◌≡◌, refl, true, List, [], ◌∷◌, ◌++◌, arith, has_prefix}
use gee_h.PrefixEnd.{prefix_end}
use gee_h.PrefixEnd.Range.{in_range, in_range-prefix_end, in_range_stray}

abbrev foo : List ℕ
foo = b'f' ∷ b'o' ∷ b'o' ∷ []

-- `TEST(prefix_end, basic)`: the three ranges.
unfoldable basic : List (List ℕ)
unfolding prefix_end
basic =
    prefix_end (foo ++ b'/' ∷ [])
    ∷ prefix_end (0xFF ∷ 0xFF ∷ [])
    ∷ prefix_end (b'A' ∷ b'B' ∷ b'C' ∷ 0xFF ∷ [])
    ∷ []

basic_test : basic ≡ (foo ++ b'0' ∷ []) ∷ (0 ∷ 0 ∷ 1 ∷ []) ∷ (b'A' ∷ b'B' ∷ b'D' ∷ 0 ∷ []) ∷ []
unfolding basic
basic_test = refl

in_range-prefix_end_example :
    in_range (foo ++ b'/' ∷ []) (prefix_end (foo ++ b'/' ∷ [])) (foo ++ b'/' ∷ 7 ∷ [])
    ≡ has_prefix (foo ++ b'/' ∷ []) (foo ++ b'/' ∷ 7 ∷ [])
in_range-prefix_end_example = in_range-prefix_end foo (foo ++ b'/' ∷ 7 ∷ []) b'/' (omega arith)

in_range_stray_test :
    in_range (foo ++ 1 ∷ 0xFF ∷ []) (prefix_end (foo ++ 1 ∷ 0xFF ∷ [])) (foo ++ 2 ∷ []) ≡ true
in_range_stray_test = (in_range_stray foo 1 0 (omega arith)).0
