-- ===== src/Requirement/Masks.antt =====
-- Bit masks over a list: which elements a number chooses, digit by digit from the lowest.
use Prim.Native.Nat.{min, bit_and, digits, bit_and-bitwise}
use native.Mathlib.Nat.{
  div-div-eq-div-mul, div-add-mod, pow-suc, pow-zero, div-one, mod-one, zero-mod, zero-div,
}
use native.Mathlib.Numerals.{add-one}
use vc_go.Prelude.{
  ℕ, zero, suc, ◌+◌, ◌-◌, ◌*◌, ◌/◌, ◌%◌, ◌^◌, ◌≤◌, ◌<◌, ◌≡◌, ◌∙◌, refl, ◌↔◌, List, [], ◌∷◌, arith,
  if◌then◌else◌, ◌==◌, length, Str,
}
use vc_go.Requirement.Iterator.{and_not, current_from, current}

-- `2 ^ suc k`, in the form that the tactics read.
pub pow_two-suc : (k : ℕ) → 2 ^ suc k ≡ 2 * 2 ^ k
pow_two-suc k = omega (arith, pow-suc 2 k)

pub pow_two-pos : (k : ℕ) → 0 < 2 ^ k
pow_two-pos zero = omega (arith, pow-zero 2)
pow_two-pos (suc k) = omega (arith, pow_two-suc k, pow_two-pos k)

pub div-pow_two-suc : (s k : ℕ) → s / 2 ^ suc k ≡ s / 2 / 2 ^ k
div-pow_two-suc s k = rw (div-div-eq-div-mul s 2 (2 ^ k), pow_two-suc k)

-- A remainder by an even number, from the lowest digit and the rest.
pub mod-double : (s m : ℕ) → s % (2 * m) ≡ s / 2 % m * 2 + s % 2
mod-double s m = omega (
  arith,
  rw (← div-div-eq-div-mul s 2 m) at (div-add-mod s (2 * m)),
  div-add-mod (s / 2) m,
  div-add-mod s 2,
)

-- The elements whose digit is 1.
unfoldable pub chosen {ℓ} : {A : Type ℓ} → ℕ → List A → List A
chosen s [] = []
chosen s (d ∷ ds) = let rest = chosen (s / 2) ds in if s % 2 == 1 then d ∷ rest else rest

div-pow_two-add_one : (s k : ℕ) → s / 2 ^ (k + 1) ≡ s / 2 ^ k / 2
div-pow_two-add_one s k = rw (div-div-eq-div-mul s (2 ^ k) 2, add-one, pow-suc)

current_from-chosen : (s i : ℕ) (ds : List Str) → current_from s i ds ≡ chosen (s / 2 ^ i) ds
unfolding current_from chosen
current_from-chosen s i [] = refl
current_from-chosen s i (d ∷ ds) = rw (current_from-chosen s (i + 1) ds, div-pow_two-add_one s i)

pub current-chosen : (s : ℕ) (ds : List Str) → current s ds ≡ chosen s ds
unfolding current
current-chosen s ds = rw (current_from-chosen s 0 ds, pow-zero, div-one)

-- No element is chosen exactly when the digits in range are all 0.
pub chosen-eq-nil {ℓ} :
    {A : Type ℓ} (s : ℕ) (ds : List A) → (s % 2 ^ length ds ≡ 0) ↔ (chosen s ds ≡ [])
unfolding chosen
chosen-eq-nil s [] = (λ h. refl, λ h. omega (arith, pow-zero 2, mod-one s))
chosen-eq-nil s (d ∷ ds) =
    rw (pow_two-suc (length ds), mod-double s (2 ^ length ds))
      (ground (arith, (chosen-eq-nil (s / 2) ds).0), ground (arith, (chosen-eq-nil (s / 2) ds).1))

-- `AND` by the clauses of the native operation, for any number `n` of digits to go.
abbrev conj : ℕ → ℕ → ℕ → ℕ
conj n s mask = digits (λ m. 0) min n s mask

conj-nothing : (n s : ℕ) → s ≤ n → conj n s 0 ≡ 0
conj-nothing zero s inside = refl
conj-nothing (suc n) zero inside = refl
conj-nothing (suc n) (suc s) inside = omega (arith, conj-nothing n (suc s / 2) (omega arith))

ones-half : (k : ℕ) → (2 ^ suc k - 1) / 2 ≡ 2 ^ k - 1
ones-half k = omega (arith, pow_two-suc k, pow_two-pos k)

power_half : (k : ℕ) → 2 ^ suc k / 2 ≡ 2 ^ k
power_half k = omega (arith, pow_two-suc k)

conj-ones : (n s k : ℕ) → s ≤ n → conj n s (2 ^ k - 1) ≡ s % 2 ^ k
conj-ones zero zero k inside = rw zero-mod refl
conj-ones zero (suc s) k inside = absurd (omega arith)
conj-ones (suc n) zero k inside = rw zero-mod refl
conj-ones (suc n) (suc s) zero inside = rw (pow-zero, mod-one) (conj-nothing (suc n) (suc s) inside)
conj-ones (suc n) (suc s) (suc k) inside =
    rw (ones-half k, conj-ones n (suc s / 2) k (omega arith), pow_two-suc k, mod-double)
      (omega (arith, pow_two-pos k))

conj-power : (n s k : ℕ) → s ≤ n → conj n s (2 ^ k) ≡ s / 2 ^ k % 2 * 2 ^ k
conj-power zero zero k inside = rw (zero-div, zero-mod) (omega arith)
conj-power zero (suc s) k inside = absurd (omega arith)
conj-power (suc n) zero k inside = rw (zero-div, zero-mod) (omega arith)
conj-power (suc n) (suc s) zero inside =
    rw (pow-zero, div-one) (omega (arith, conj-nothing n (suc s / 2) (omega arith)))
conj-power (suc n) (suc s) (suc k) inside =
    rw
      (
        div-pow_two-suc (suc s) k,
        power_half k,
        conj-power n (suc s / 2) k (omega arith),
        pow_two-suc k,
      )
      (omega arith)

pub bit_and-mask : (s k : ℕ) → bit_and s (2 ^ k - 1) ≡ s % 2 ^ k
bit_and-mask s k = bit_and-bitwise s (2 ^ k - 1) ∙ conj-ones s s k (omega arith)

-- `AND` with a power of two keeps its digit.
pub bit_and-power : (s k : ℕ) → bit_and s (2 ^ k) ≡ s / 2 ^ k % 2 * 2 ^ k
bit_and-power s k = bit_and-bitwise s (2 ^ k) ∙ conj-power s s k (omega arith)

-- `AndNot` with the mask of `k` ones rounds down to a multiple of `2 ^ k`.
pub and_not-mask : (s k : ℕ) → and_not s (2 ^ k - 1) ≡ s / 2 ^ k * 2 ^ k
and_not-mask s k = rw (bit_and-mask s k) (omega (arith, div-add-mod s (2 ^ k)))
