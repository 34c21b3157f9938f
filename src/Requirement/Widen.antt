-- ===== src/Requirement/Widen.antt =====
-- Masks over a list from which some elements are removed, against masks over the whole list.
use native.Mathlib.Nat.{zero-add, suc-add, div-one, pow-zero}
use vc_go.Prelude.{
  ℕ, zero, suc, ◌+◌, ◌-◌, ◌*◌, ◌/◌, ◌%◌, ◌^◌, ◌≤◌, ◌≡◌, refl, Bool, true, false, List, [], ◌∷◌,
  ◌++◌, arith, length,
}
use vc_go.Requirement.Masks.{chosen, pow_two-suc, div-pow_two-suc}

-- A flag marks an element that is removed. Elements past the flags are kept.
unfoldable pub remove {ℓ} : {A : Type ℓ} → List Bool → List A → List A
remove [] ds = ds
remove (flag ∷ flags) [] = []
remove (true ∷ flags) (d ∷ ds) = remove flags ds
remove (false ∷ flags) (d ∷ ds) = d ∷ remove flags ds

-- The mask over the whole list that makes the same choice as `t` over what is kept.
unfoldable pub widen : List Bool → ℕ → ℕ
widen [] t = t
widen (true ∷ flags) t = 2 * widen flags t
widen (false ∷ flags) t = t % 2 + 2 * widen flags (t / 2)

unfoldable pub kept : List Bool → ℕ
kept [] = 0
kept (true ∷ flags) = kept flags
kept (false ∷ flags) = suc (kept flags)

unfoldable pub removed : List Bool → ℕ
removed [] = 0
removed (true ∷ flags) = suc (removed flags)
removed (false ∷ flags) = removed flags

pub chosen-widen {ℓ} :
    {A : Type ℓ} (flags : List Bool) (t : ℕ) (ds : List A)
    → length flags ≤ length ds
    → chosen (widen flags t) ds ≡ chosen t (remove flags ds)
unfolding chosen widen remove
chosen-widen [] t ds h = refl
chosen-widen (flag ∷ flags) t [] h = absurd (omega arith)
chosen-widen (true ∷ flags) t (d ∷ ds) h =
    let low : 2 * widen flags t % 2 ≡ 0 = omega arith in
    let high : 2 * widen flags t / 2 ≡ widen flags t = omega arith in
    rw (low, high) (chosen-widen flags t ds (omega arith))
chosen-widen (false ∷ flags) t (d ∷ ds) h =
    let low : (t % 2 + 2 * widen flags (t / 2)) % 2 ≡ t % 2 = omega arith in
    let high : (t % 2 + 2 * widen flags (t / 2)) / 2 ≡ widen flags (t / 2) = omega arith in
    rw (low, high, chosen-widen flags (t / 2) ds (omega arith))

-- The mask over what is kept that widens to a mask with no flagged digit.
unfoldable pub narrow : List Bool → ℕ → ℕ
narrow [] u = u
narrow (true ∷ flags) u = narrow flags (u / 2)
narrow (false ∷ flags) u = u % 2 + 2 * narrow flags (u / 2)

-- No flagged digit of the mask is 1.
abbrev pub Clear : List Bool → ℕ → Type 0
Clear [] u = Unit
Clear (true ∷ flags) u = (u % 2 ≡ 0) × Clear flags (u / 2)
Clear (false ∷ flags) u = Clear flags (u / 2)

pub widen-narrow : (flags : List Bool) (u : ℕ) → Clear flags u → widen flags (narrow flags u) ≡ u
unfolding widen narrow
widen-narrow [] u h = refl
widen-narrow (true ∷ flags) u h = omega (arith, widen-narrow flags (u / 2) h.1)
widen-narrow (false ∷ flags) u h =
    let high : (u % 2 + 2 * narrow flags (u / 2)) / 2 ≡ narrow flags (u / 2) = omega arith in
    rw (high, widen-narrow flags (u / 2) h) (omega arith)

-- Multiples of the number of choices over the flags widen to such multiples.
pub widen-mul :
    (flags : List Bool) (y : ℕ) → widen flags (2 ^ kept flags * y) ≡ 2 ^ length flags * y
unfolding widen kept
widen-mul [] y = refl
widen-mul (true ∷ flags) y = rw (widen-mul flags y, pow_two-suc (length flags)) (omega arith)
widen-mul (false ∷ flags) y =
    let m = 2 ^ kept flags in
    let even : 2 * m * y % 2 ≡ 0 = omega arith in
    let half : 2 * m * y / 2 ≡ m * y = omega arith in
    rw (pow_two-suc (kept flags), even, half, widen-mul flags y, pow_two-suc (length flags))
      (omega arith)

-- Widening keeps the order, and distances do not shrink.
pub widen-grows : (flags : List Bool) (t d : ℕ) → widen flags t + d ≤ widen flags (t + d)
unfolding widen
widen-grows [] t d = omega arith
widen-grows (true ∷ flags) t d = omega (arith, widen-grows flags t d)
widen-grows (false ∷ flags) t d =
    let e = (t + d) / 2 - t / 2 in
    let reach : t / 2 + e ≡ (t + d) / 2 = omega arith in
    omega (arith, rw reach at (widen-grows flags (t / 2) e))

pub length-remove {ℓ} :
    {A : Type ℓ} (flags : List Bool) (ds : List A)
    → length flags ≤ length ds
    → length (remove flags ds) + length flags ≡ length ds + kept flags
unfolding remove kept
length-remove [] ds h = refl
length-remove (flag ∷ flags) [] h = absurd (omega arith)
length-remove (true ∷ flags) (d ∷ ds) h = omega (arith, length-remove flags ds (omega arith))
length-remove (false ∷ flags) (d ∷ ds) h = omega (arith, length-remove flags ds (omega arith))

-- Past the first flags, a widened mask is the widening of the digits past those kept.
widen-div :
    (flags more : List Bool) (t : ℕ)
    → widen (flags ++ more) t / 2 ^ length flags ≡ widen more (t / 2 ^ kept flags)
unfolding widen kept
widen-div [] more t = rw (pow-zero, div-one, div-one)
widen-div (true ∷ flags) more t =
    let high : 2 * widen (flags ++ more) t / 2 ≡ widen (flags ++ more) t = omega arith in
    rw (div-pow_two-suc, high) (widen-div flags more t)
widen-div (false ∷ flags) more t =
    let w = widen (flags ++ more) (t / 2) in
    let high : (t % 2 + 2 * w) / 2 ≡ w = omega arith in
    rw (div-pow_two-suc (t % 2 + 2 * w) (length flags), high, div-pow_two-suc t (kept flags))
      (widen-div flags more (t / 2))

pub kept-removed : (flags : List Bool) → kept flags + removed flags ≡ length flags
unfolding kept removed
kept-removed [] = omega arith
kept-removed (true ∷ flags) = omega (arith, kept-removed flags)
kept-removed (false ∷ flags) = omega (arith, kept-removed flags)

pub pow_two-add : (a b : ℕ) → 2 ^ (a + b) ≡ 2 ^ a * 2 ^ b
pow_two-add zero b = rw (zero-add, pow-zero) (omega arith)
pow_two-add (suc a) b =
    rw (suc-add, pow_two-suc (a + b), pow_two-add a b, pow_two-suc a) (omega arith)

-- The flags of a removal whose last flag is set.
module _ (flags : List Bool) where
  abbrev pub k : ℕ
  k = length flags

  abbrev pub last_set : List Bool
  last_set = flags ++ true ∷ []

  pub widen-last : (t : ℕ) → widen last_set t / 2 ^ k ≡ 2 * (t / 2 ^ kept flags)
  unfolding widen
  widen-last t = widen-div flags (true ∷ []) t
