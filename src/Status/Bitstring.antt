-- ===== src/Status/Bitstring.antt =====
-- status/internal/bitstring/bitstring.go: bit strings over bytes. Compression and base64 are library
-- code, passed as functions.
use Prim.Native.Nat.{bit_and}
use vc_go.Prelude.{
  ℕ, ◌*◌, ◌/◌, ◌%◌, ◌^◌, Bool, not, List, Option, none, some, if◌then◌else◌, leb, length, get_elem?,
  ◌==◌, Str,
}
use vc_go.Prelude.Int.{ℤ, pos, negsuc}
use vc_go.Status.Types.{Result, ok, err, panic, Error, position_invalid}

abbrev pub bits_per_byte : ℕ
bits_per_byte = 8

-- `(bitString[nByte] & (one << nBit)) != 0`, where an index out of range panics.
unfoldable pub test_bit : Option ℕ → ℕ → Result Error Bool
test_bit none n_bit = panic
test_bit (some byte) n_bit = ok (not (bit_and byte (1 * 2 ^ n_bit) == 0))

-- Below zero the guard holds, whatever Go's division gives.
unfoldable pub bit_at : List ℕ → ℤ → Result Error Bool
bit_at bit_string (negsuc n) = err position_invalid
bit_at bit_string (pos idx) =
    let n_byte = idx / bits_per_byte in
    let n_bit = idx % bits_per_byte in
    if leb (length bit_string) n_byte
    then err position_invalid
    else test_bit (get_elem? bit_string n_byte) n_bit

-- `base64.RawURLEncoding`, `gzip.NewReader` with the read of all its output, and `gzip.NewWriter` with
-- the write and the close.
pub record Codec : Type 0 where
  pub base64_decode : Str → Option (List ℕ)
  pub base64_encode : List ℕ → Str
  pub gunzip : List ℕ → Option (List ℕ)
  pub gzip : List ℕ → Option (List ℕ)

unfoldable pub decode : Codec → Str → Option (List ℕ)
decode c src = elim (c.base64_decode src) [ none ↦ none | some bits ↦ c.gunzip bits ]

unfoldable pub encode : Codec → List ℕ → Option Str
encode c bit_string = elim (c.gzip bit_string) [
  | none ↦ none
  | some buf ↦ some (c.base64_encode buf)
]
