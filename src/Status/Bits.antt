-- ===== src/Status/Bits.antt =====
-- `BitAt` against the list of all bits, the lowest bit of each byte first.
use native.Mathlib.Nat.{pow-zero, div-one, one-mul, zero-add, suc-add}
use vc_go.Prelude.{
  ℕ, zero, suc, ◌+◌, ◌-◌, ◌*◌, ◌/◌, ◌%◌, ◌^◌, ◌<◌, ◌≡◌, refl, Bool, List, [], ◌∷◌, ◌++◌, none, some,
  arith, get_elem?, ◌==◌, dec_lt,
}
use vc_go.Prelude.Int.{ℤ, pos, negsuc}
use vc_go.Requirement.Masks.{pow_two-pos, div-pow_two-suc, bit_and-power}
use vc_go.Status.Types.{Result, ok, err, Error, position_invalid}
use vc_go.Status.Bitstring.{test_bit, bit_at}

-- The lowest `n` bits of a byte.
abbrev byte_bits : ℕ → ℕ → List Bool
byte_bits zero x = []
byte_bits (suc n) x = (x % 2 == 1) ∷ byte_bits n (x / 2)

abbrev pub bits_of : List ℕ → List Bool
bits_of [] = []
bits_of (x ∷ xs) = byte_bits 8 x ++ bits_of xs

-- The bit at a position, or the error where there is none.
abbrev pub at_position : List Bool → ℤ → Result Error Bool
at_position bits (negsuc n) = err position_invalid
at_position bits (pos i) = elim (get_elem? bits i) [ none ↦ err position_invalid | some b ↦ ok b ]

test_bit_lem : (x n : ℕ) → test_bit (some x) n ≡ ok (x / 2 ^ n % 2 == 1)
unfolding test_bit
test_bit_lem x n =
    rw (one-mul, bit_and-power x n) (ground (arith, pow_two-pos n, zero_case, one_case))
  where
    zero_case : x / 2 ^ n % 2 ≡ 0 → x / 2 ^ n % 2 * 2 ^ n ≡ 0
    zero_case h = rw h (omega arith)

    one_case : x / 2 ^ n % 2 ≡ 1 → x / 2 ^ n % 2 * 2 ^ n ≡ 2 ^ n
    one_case h = rw h (omega arith)

byte_bits-inside :
    (n x i : ℕ) (rest : List Bool)
    → i < n
    → get_elem? (byte_bits n x ++ rest) i ≡ some (x / 2 ^ i % 2 == 1)
byte_bits-inside zero x i rest h = elim h [ ]
byte_bits-inside (suc n) x zero rest h = rw (pow-zero, div-one)
byte_bits-inside (suc n) x (suc i) rest h =
    rw div-pow_two-suc (byte_bits-inside n (x / 2) i rest (omega arith))

byte_bits-past :
    (n x i : ℕ) (rest : List Bool) → get_elem? (byte_bits n x ++ rest) (n + i) ≡ get_elem? rest i
byte_bits-past zero x i rest = rw zero-add
byte_bits-past (suc n) x i rest = rw suc-add (byte_bits-past n (x / 2) i rest)

bit_at-past : (x : ℕ) (xs : List ℕ) (i : ℕ) → bit_at (x ∷ xs) (pos (8 + i)) ≡ bit_at xs (pos i)
unfolding bit_at
bit_at-past x xs i =
    let byte : (8 + i) / 8 ≡ suc (i / 8) = omega arith in
    let place : (8 + i) % 8 ≡ i % 8 = omega arith in rw (byte, place) (ground arith)

bit_at-inside :
    (x : ℕ) (xs : List ℕ) (i : ℕ) → i < 8 → bit_at (x ∷ xs) (pos i) ≡ test_bit (some x) i
unfolding bit_at
bit_at-inside x xs i h =
    let byte : i / 8 ≡ 0 = omega arith in
    let place : i % 8 ≡ i = omega arith in rw (byte, place) (ground arith)

-- `BitAt` reads the list of all bits, and fails outside of it, below zero too.
pub bit_at-at_position : (xs : List ℕ) (idx : ℤ) → bit_at xs idx ≡ at_position (bits_of xs) idx
unfolding bit_at
bit_at-at_position xs (negsuc n) = refl
bit_at-at_position [] (pos i) = ground arith
bit_at-at_position (x ∷ xs) (pos i) = elim (dec_lt i 8) [
  | yes inside ↦
      rw (bit_at-inside x xs i inside, test_bit_lem x i, byte_bits-inside 8 x i (bits_of xs) inside)
  | no past ↦
      let split : i ≡ 8 + (i - 8) = omega arith in
      rw (split, bit_at-past x xs (i - 8), byte_bits-past 8 x (i - 8) (bits_of xs))
        (bit_at-at_position xs (pos (i - 8)))
]
