-- ===== src/Prelude/Split.antt =====
-- What `strings.Split` for a separator of one byte returns: the texts between the separators.
use Prim.Native.Nat.{ℕ}
use mathlib.Core.Path.{◌≡◌, refl, ap}
use mathlib.Core.Logic.{inl, inr}
use mathlib.Core.Bool.{true, false}
use mathlib.Core.List.{List, [], ◌∷◌, ◌++◌}
use native.Mathlib.Omega.{arith}
use vc_go.Prelude.Tests.{◌==◌, Bool-cases}
use vc_go.Prelude.Strings.{Str, contains_byte, cons_head, split_byte}

-- The parts are free of the separator, and with it between them they make the text.
abbrev pub IsSplit : ℕ → Str → List Str → Type 0
IsSplit c s [] = ⊥
IsSplit c s (p ∷ []) = (s ≡ p) × (contains_byte c p ≡ false)
IsSplit c s (p ∷ q ∷ ps) =
    (rest : Str) × (s ≡ p ++ (c ∷ rest)) × (contains_byte c p ≡ false) × IsSplit c rest (q ∷ ps)

IsSplit-cons_head :
    (c a : ℕ) (s : Str) (ps : List Str)
    → (a == c) ≡ false
    → IsSplit c s ps
    → IsSplit c (a ∷ s) (cons_head a ps)
unfolding contains_byte
IsSplit-cons_head c a s [] other h = absurd h
IsSplit-cons_head c a s (p ∷ []) other (same, plain) = (ap (λ t. a ∷ t) same, rw other plain)
IsSplit-cons_head c a s (p ∷ q ∷ ps) other (rest, same, plain, more) =
    (rest, ap (λ t. a ∷ t) same, rw other plain, more)

IsSplit-separator :
    (c a : ℕ) (s : Str) (ps : List Str)
    → (a == c) ≡ true
    → IsSplit c s ps
    → IsSplit c (a ∷ s) ([] ∷ ps)
unfolding contains_byte
IsSplit-separator c a s [] here h = absurd h
IsSplit-separator c a s (p ∷ ps) here h =
    let same : a ≡ c = ground arith in (s, ap (λ b. b ∷ s) same, refl, h)

pub split_byte-IsSplit : (c : ℕ) (s : Str) → IsSplit c s (split_byte c s)
unfolding split_byte contains_byte
split_byte-IsSplit c [] = (refl, refl)
split_byte-IsSplit c (a ∷ s) = elim (Bool-cases (a == c)) [
  | inl here ↦ rw here (IsSplit-separator c a s (split_byte c s) here (split_byte-IsSplit c s))
  | inr other ↦ rw other (IsSplit-cons_head c a s (split_byte c s) other (split_byte-IsSplit c s))
]
