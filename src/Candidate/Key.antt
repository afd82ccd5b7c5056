-- ===== src/Candidate/Key.antt =====
-- The key under which a candidate stands in etcd: the election's prefix and the lease in hexadecimal.
use Prim.Native.Nat.{◌^◌}
use mathlib.Core.List.{append_cancel_left}
use gee_h.Prelude.{
  ℕ, zero, suc, ◌+◌, ◌-◌, ◌*◌, ◌/◌, ◌%◌, ◌<◌, ◌≡◌, ◌≢◌, refl, ◌∙◌, ap, sym, List, [], ◌∷◌, ◌++◌,
  arith, ltb, if◌then◌else◌, Bool-cases, true, has_prefix, inl, inr, length, ◌≤◌, length-append,
}

abbrev hex_digit : ℕ → ℕ
hex_digit d = if ltb d 10 then b'0' + d else b'a' + d - 10

-- The digits of `n` before those of `acc`; `n` itself is fuel enough.
hex_from : ℕ → ℕ → List ℕ → List ℕ
hex_from zero n acc = acc
hex_from (suc fuel) n acc =
    let shorter = hex_digit (n % 16) ∷ acc in
    let longer = hex_from fuel (n / 16) shorter in if ltb n 16 then shorter else longer

-- `os << std::hex << n`
unfoldable pub hex : ℕ → List ℕ
unfolding hex_from
hex n = hex_from (suc n) n []

-- The constructor: `election_name + "/"`, and that with the lease behind it.
unfoldable pub election_prefix : List ℕ → List ℕ
election_prefix election_name = election_name ++ b'/' ∷ []

unfoldable pub candidate_key : List ℕ → ℕ → List ℕ
unfolding election_prefix hex
candidate_key election_name lease_id = election_prefix election_name ++ hex lease_id

digit_value : ℕ → ℕ
digit_value c = if ltb c b'a' then c - b'0' else c + 10 - b'a'

read : ℕ → List ℕ → ℕ
read v [] = v
read v (c ∷ cs) = read (v * 16 + digit_value c) cs

digit_value-hex_digit : (d : ℕ) → d < 16 → digit_value (hex_digit d) ≡ d
unfolding digit_value
digit_value-hex_digit d h = ground arith

read-hex_from : (fuel n : ℕ) (acc : List ℕ) → n < fuel → read 0 (hex_from fuel n acc) ≡ read n acc
unfolding hex_from read
read-hex_from zero n acc h = elim h [ ]
read-hex_from (suc fuel) n acc h = elim (Bool-cases (ltb n 16)) [
  | inl short ↦ rw short (ap (λ v. read v acc) (last_digit 0 (ground arith)))
  | inr long ↦ rw long (
      read-hex_from fuel (n / 16) (hex_digit (n % 16) ∷ acc) (ground arith)
      ∙ ap (λ v. read v acc) (last_digit (n / 16) refl))
]
  where
    last_digit : (v : ℕ) → v ≡ n / 16 → v * 16 + digit_value (hex_digit (n % 16)) ≡ n
    last_digit v e = omega (arith, digit_value-hex_digit (n % 16) (omega arith))

hex-injective : (a b : ℕ) → hex a ≡ hex b → a ≡ b
unfolding hex read
hex-injective a b e =
    sym (read-hex_from (suc a) a [] (omega arith))
    ∙ ap (read 0) e
    ∙ read-hex_from (suc b) b [] (omega arith)

-- Two candidates of one election with different leases have different keys.
pub candidate_key-ne :
    (election_name : List ℕ) (a b : ℕ)
    → a ≢ b
    → candidate_key election_name a ≢ candidate_key election_name b
unfolding candidate_key
candidate_key-ne election_name a b differ e =
    differ
      (hex-injective a b (append_cancel_left (election_prefix election_name) (hex a) (hex b) e))

pub has_prefix-append : (p k : List ℕ) → has_prefix p (p ++ k) ≡ true
has_prefix-append [] k = refl
has_prefix-append (b ∷ p) k = ground (arith, has_prefix-append p k)

-- The key of every candidate starts with the prefix of its election.
pub candidate_key-has_prefix :
    (election_name : List ℕ) (lease_id : ℕ)
    → has_prefix (election_prefix election_name) (candidate_key election_name lease_id) ≡ true
unfolding candidate_key
candidate_key-has_prefix election_name lease_id =
    has_prefix-append (election_prefix election_name) (hex lease_id)

-- The key of a candidate in an election whose name continues another election's name behind a
-- slash also starts with the prefix of that other election.
pub candidate_key-nested :
    (outer inner : List ℕ) (lease_id : ℕ)
    → has_prefix (election_prefix outer) (candidate_key (outer ++ b'/' ∷ inner) lease_id) ≡ true
unfolding candidate_key
candidate_key-nested [] inner lease_id = ground arith
candidate_key-nested (b ∷ outer) inner lease_id =
    ground (arith, candidate_key-nested outer inner lease_id)

length-hex_from :
    (k fuel n : ℕ) (acc : List ℕ)
    → n < 16 ^ suc k
    → length (hex_from fuel n acc) ≤ suc k + length acc
unfolding hex_from
length-hex_from k zero n acc h = omega arith
length-hex_from zero (suc fuel) n acc h = ground arith
length-hex_from (suc k) (suc fuel) n acc h =
    ground (arith, length-hex_from k fuel (n / 16) (hex_digit (n % 16) ∷ acc) (omega arith))

length-hex_from_pos :
    (fuel n : ℕ) (acc : List ℕ) → suc (length acc) ≤ length (hex_from (suc fuel) n acc)
unfolding hex_from
length-hex_from_pos zero n acc = ground arith
length-hex_from_pos (suc fuel) n acc =
    ground (arith, length-hex_from_pos fuel (n / 16) (hex_digit (n % 16) ∷ acc))

-- The key of a candidate with a lease of 64 bits has at most 17 bytes more than the election's name,
-- and at least 2.
pub length-candidate_key :
    (election_name : List ℕ) (lease_id : ℕ)
    → lease_id < 2 ^ 64
    → (length (candidate_key election_name lease_id) ≤ length election_name + 17)
      × (length election_name + 2 ≤ length (candidate_key election_name lease_id))
unfolding candidate_key election_prefix hex
length-candidate_key election_name lease_id h =
    let hexadecimal = length-hex_from 15 (suc lease_id) lease_id [] h in
    let one = length-hex_from_pos lease_id lease_id [] in
    let whole = length-append (election_name ++ b'/' ∷ []) (hex lease_id) in
    let prefix = length-append election_name (b'/' ∷ []) in (omega arith, omega arith)
