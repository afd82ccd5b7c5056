-- ===== src/PrefixEnd.antt =====
-- gh/prefix_end.cpp: the end of the range of keys that start with a prefix. A string is the list of
-- its bytes, first byte first; each is a number below 256.
pub mod Range
mod Tests
use mathlib.Core.List.{reverse}
use gee_h.Prelude.{ℕ, ◌+◌, ◌%◌, List, [], ◌∷◌, ◌++◌, ◌==◌, if◌then◌else◌, Bool, true, false}

-- The loop over `rbegin() .. rend()`: the bytes from the last one, and `needs_append`.
unfoldable pub carry : List ℕ → List ℕ × Bool
carry [] = ([], true)
carry (b ∷ bs) =
    let (rest, needs_append) = carry bs in
    if b == 0xFF then (0 ∷ rest, needs_append) else (((b + 1) % 256) ∷ bs, false)

-- What is left after the loop: the string in its own order, with a byte 0x01 behind it if no byte
-- was incremented.
unfoldable pub append_maybe : List ℕ × Bool → List ℕ
append_maybe (range_end, true) = reverse range_end ++ 1 ∷ []
append_maybe (range_end, false) = reverse range_end

unfoldable pub prefix_end : List ℕ → List ℕ
unfolding carry append_maybe
prefix_end prefix = append_maybe (carry (reverse prefix))
