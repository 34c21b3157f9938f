-- ===== src/Prelude/Strings.antt =====
-- Go strings as sequences of bytes: equality, order, membership of a byte, and `strings.Split`.
use Prim.Native.Nat.{ℕ}
use Prim.Native.Char.{code}
use Prim.Native.String.{String}
use mathlib.Core.Path.{◌≡◌, refl}
use mathlib.Core.Logic.{◌↔◌}
use mathlib.Core.Bool.{Bool, true, false, ◌&&◌, ◌||◌}
use mathlib.Core.List.{List, [], ◌∷◌}
use native.Mathlib.Omega.{arith}
use vc_go.Prelude.Tests.{◌==◌, ltb, if◌then◌else◌}

abbrev pub Str : Type 0
Str = List ℕ

-- The bytes of an ASCII literal.
abbrev pub codes : String → Str
codes String.[] = []
codes (String.◌∷◌ c s) = code c ∷ codes s

unfoldable pub str_eq : Str → Str → Bool
str_eq [] [] = true
str_eq (a ∷ s) (b ∷ t) = a == b && str_eq s t
str_eq _ _ = false

str_eq→eq : (s t : Str) → str_eq s t ≡ true → s ≡ t
unfolding str_eq
str_eq→eq [] [] h = refl
str_eq→eq [] (b ∷ t) h = cc
str_eq→eq (a ∷ s) [] h = cc
str_eq→eq (a ∷ s) (b ∷ t) h = ground (arith, str_eq→eq s t)

pub str_eq_self : (s : Str) → str_eq s s ≡ true
unfolding str_eq
str_eq_self [] = refl
str_eq_self (a ∷ s) = ground (arith, str_eq_self s)

-- The test decides equality.
pub str_eq_iff : (s t : Str) → (str_eq s t ≡ true) ↔ (s ≡ t)
str_eq_iff s t = (str_eq→eq s t, λ e. rw e (str_eq_self t))

-- `strings.Contains(s, c)` for a text of one byte.
unfoldable pub contains_byte : ℕ → Str → Bool
contains_byte c [] = false
contains_byte c (a ∷ s) = a == c || contains_byte c s

-- `s <= t` in the order of `sort.Strings`, byte by byte.
unfoldable pub str_leb : Str → Str → Bool
str_leb [] t = true
str_leb (a ∷ s) [] = false
str_leb (a ∷ s) (b ∷ t) = if a == b then str_leb s t else ltb a b

-- Puts a byte in front of the first part.
abbrev pub cons_head : ℕ → List Str → List Str
cons_head a [] = (a ∷ []) ∷ []
cons_head a (p ∷ ps) = (a ∷ p) ∷ ps

-- `strings.Split(s, c)` for a separator of one byte.
unfoldable pub split_byte : ℕ → Str → List Str
split_byte c [] = [] ∷ []
split_byte c (a ∷ s) = let rest = split_byte c s in if a == c then [] ∷ rest else cons_head a rest
