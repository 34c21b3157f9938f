-- ===== src/Requirement/Exclusion.antt =====
-- `excludeDescriptors`: what its state and its list of descriptors stand for after the call.
use native.Mathlib.Nat.{mul-div_left, div-add-mod, div-lt_iff_lt-mul, div-mul-le_self}
use vc_go.Prelude.{
  ℕ, suc, ◌+◌, ◌-◌, ◌*◌, ◌/◌, ◌^◌, ◌≤◌, ◌<◌, ◌≡◌, ap, ◌↔◌, Bool, List, arith, length, dec_lt,
}
use vc_go.Requirement.Iterator.{bit, and_not, rsh}
use vc_go.Requirement.Masks.{pow_two-suc, pow_two-pos, and_not-mask}
use vc_go.Requirement.Widen.{widen, kept, removed, kept-removed, pow_two-add, last_set, widen-last}

-- The order of two numbers is that of their quotients, if those differ.
lt-of_div-lt : (s w p : ℕ) → 0 < p → s / p < w / p → s < w
lt-of_div-lt s w p pos h =
    omega (arith, (div-lt_iff_lt-mul {x = s} {y = w / p} pos).0 h, div-mul-le_self w p)

le-div_iff : (a x p : ℕ) → 0 < p → (a ≤ x / p) ↔ (a * p ≤ x)
le-div_iff a x p pos = (
  λ h. elim (dec_lt x (a * p)) [
    | yes lt ↦ absurd (omega (arith, (div-lt_iff_lt-mul {x = x} {y = a} pos).1 lt))
    | no ge ↦ omega arith
  ],
  λ h. elim (dec_lt (x / p) a) [
    | yes lt ↦ absurd (omega (arith, (div-lt_iff_lt-mul {x = x} {y = a} pos).0 lt))
    | no ge ↦ omega arith
  ],
)

-- The state after the removal of `flags` and the element behind them.
abbrev pub shifted : List Bool → ℕ → ℕ
shifted flags s = rsh (and_not s (2 ^ length flags - 1) + 2 ^ length flags) (suc (removed flags))

module _ (flags : List Bool) (s : ℕ) (set : bit s (length flags) ≡ 1) where
  abbrev k : ℕ
  k = length flags

  abbrev h : ℕ
  h = s / 2 ^ k / 2

  odd : s / 2 ^ k ≡ 2 * h + 1
  odd = omega (arith, div-add-mod (s / 2 ^ k) 2)

  raised : and_not s (2 ^ k - 1) + 2 ^ k ≡ (h + 1) * 2 ^ kept flags * 2 ^ suc (removed flags)
  raised = rw (and_not-mask s k) (omega (arith, odd_high, total))
    where
      odd_high : s / 2 ^ k * 2 ^ k ≡ (2 * h + 1) * 2 ^ k
      odd_high = ap (λ t. t * 2 ^ k) odd

      width : 2 * 2 ^ k ≡ 2 ^ kept flags * 2 ^ suc (removed flags)
      width =
          rw (← pow_two-suc k, ← pow_two-add (kept flags) (suc (removed flags)))
            (ap (λ t. 2 ^ t) (omega (arith, kept-removed flags)))

      total : (h + 1) * (2 * 2 ^ k) ≡ (h + 1) * (2 ^ kept flags * 2 ^ suc (removed flags))
      total = ap (λ t. (h + 1) * t) width

  shifted_lem : shifted flags s ≡ (h + 1) * 2 ^ kept flags
  shifted_lem = rw raised (mul-div_left _ (pow_two-pos (suc (removed flags))))

  -- A mask over what is kept is no earlier than the shifted state exactly when the same choice over
  -- the whole list comes after `s`.
  pub shifted-le_iff : (t : ℕ) → (shifted flags s ≤ t) ↔ (s < widen (last_set flags) t)
  shifted-le_iff t = rw shifted_lem (forth, back)
    where
      x : ℕ
      x = t / 2 ^ kept flags

      quotient : (h + 1 ≤ x) ↔ ((h + 1) * 2 ^ kept flags ≤ t)
      quotient = le-div_iff (h + 1) t (2 ^ kept flags) (pow_two-pos (kept flags))

      forth : (h + 1) * 2 ^ kept flags ≤ t → s < widen (last_set flags) t
      forth le =
          lt-of_div-lt s _ (2 ^ k) (pow_two-pos k)
            (rw (widen-last flags t) (omega (arith, odd, quotient.1 le)))

      back : s < widen (last_set flags) t → (h + 1) * 2 ^ kept flags ≤ t
      back lt = elim (dec_lt x (h + 1)) [
        | yes small ↦ absurd (
            omega (
              arith,
              lt-of_div-lt (widen (last_set flags) t) s (2 ^ k) (pow_two-pos k)
                  (rw (widen-last flags t) (omega (arith, odd))),
            ))
        | no large ↦ quotient.0 (omega arith)
      ]
