-- ===== src/Requirement/Positions.antt =====
-- The positions of descriptors in a list where each stands once, and the digits at them.
use native.Mathlib.Nat.{pow-zero, div-one}
use vc_go.Prelude.{
  ℕ, zero, suc, ◌+◌, ◌/◌, ◌%◌, ◌<◌, ◌≡◌, refl, inl, inr, true, false, List, [], ◌∷◌, arith, length,
  Bool-cases, Str, str_eq, str_eq_iff, ◌==◌, if◌then◌else◌,
}
use vc_go.Requirement.Sets.{has}
use vc_go.Requirement.Iterator.{bit, has_index, add_index, matching_indices}
use vc_go.Requirement.Masks.{chosen, div-pow_two-suc}
use vc_go.Requirement.Widen.{Clear}
use vc_go.Requirement.Indices.{flags_of}

-- No text stands twice.
abbrev pub NoDup : List Str → Type 0
NoDup [] = Unit
NoDup (d ∷ ds) = (has ds d ≡ false) × NoDup ds

unfoldable pub index_of : Str → List Str → ℕ
index_of id [] = 0
index_of id (d ∷ ds) = if str_eq d id then 0 else suc (index_of id ds)

matching_indices-absent :
    (id : Str) (i : ℕ) (ds : List Str) (found : List ℕ)
    → has ds id ≡ false
    → matching_indices id i ds found ≡ found
unfolding matching_indices has
matching_indices-absent id i [] found h = refl
matching_indices-absent id i (d ∷ ds) found h =
    ground (arith, str_eq_iff d id, str_eq_iff id d, matching_indices-absent id (i + 1) ds found)

pub matching_indices-NoDup :
    (id : Str) (i : ℕ) (ds : List Str)
    → has ds id ≡ true
    → NoDup ds
    → matching_indices id i ds [] ≡ (i + index_of id ds) ∷ []
unfolding matching_indices has index_of add_index has_index
matching_indices-NoDup id i [] h nodup = cc
matching_indices-NoDup id i (d ∷ ds) h (new, nodup) = ground (
  arith,
  str_eq_iff d id,
  str_eq_iff id d,
  matching_indices-absent id (i + 1) ds (i ∷ []),
  matching_indices-NoDup id (i + 1) ds,
)

pub index_of-lt : (id : Str) (ds : List Str) → has ds id ≡ true → index_of id ds < length ds
unfolding has index_of
index_of-lt id [] h = cc
index_of-lt id (d ∷ ds) h = ground (arith, index_of-lt id ds)

pub has-chosen : (s : ℕ) (ds : List Str) (id : Str) → has (chosen s ds) id ≡ true → has ds id ≡ true
unfolding has chosen
has-chosen s [] id h = cc
has-chosen s (d ∷ ds) id h = ground (arith, has-chosen (s / 2) ds id)

bit-zero : (s : ℕ) → bit s 0 ≡ s % 2
bit-zero s = rw (pow-zero, div-one)

bit-suc : (s i : ℕ) → bit s (suc i) ≡ bit (s / 2) i
bit-suc s i = rw div-pow_two-suc

-- A descriptor is chosen exactly when the digit at its index is 1.
pub bit-index_of :
    (s : ℕ) (ds : List Str) (id : Str)
    → NoDup ds
    → has ds id ≡ true
    → has (chosen s ds) id ≡ (bit s (index_of id ds) == 1)
unfolding has chosen index_of
bit-index_of s [] id nodup h = cc
bit-index_of s (d ∷ ds) id (new, nodup) h = elim (Bool-cases (str_eq d id)) [
  | inl here ↦ rw (here, bit-zero) (ground (arith, str_eq_iff d id, has-chosen (s / 2) ds id))
  | inr later ↦ rw (later, bit-suc) (ground (arith, bit-index_of (s / 2) ds id))
]

has_index-single_self : (i : ℕ) → has_index (i ∷ []) i ≡ true
unfolding has_index
has_index-single_self i = ground arith

has_index-single_other : (i q : ℕ) → has_index ((i + suc q) ∷ []) i ≡ false
unfolding has_index
has_index-single_other i q = ground arith

-- The flags of one index ask only for the digit at that index.
pub Clear-flags_of : (p i q u : ℕ) → p ≡ i + q → bit u q ≡ 0 → Clear (flags_of (p ∷ []) i (suc q)) u
unfolding flags_of
Clear-flags_of p i zero u e h =
    let here : p ≡ i = omega arith in rw (here, has_index-single_self) (rw bit-zero at h, tt)
Clear-flags_of p i (suc q) u e h =
    rw (e, has_index-single_other, ← e)
      (Clear-flags_of p (i + 1) q (u / 2) (omega arith) (rw bit-suc at h))
