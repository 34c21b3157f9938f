-- ===== src/Prelude/Dicts.antt =====
-- A Go map with string keys, as an association list. The order of the entries stands for the
-- order in which a `range` loop meets them, which Go leaves open.
use mathlib.Core.Path.{◌≡◌, refl, subst}
use mathlib.Core.Logic.{inl, inr}
use mathlib.Core.List.{List, [], ◌∷◌, map}
use mathlib.Core.Option.{Option, none, some}
use native.Mathlib.Omega.{arith}
use vc_go.Prelude.Tests.{if◌then◌else◌, Bool-cases}
use vc_go.Prelude.Strings.{Str, str_eq, str_eq_iff}

abbrev pub Dict {ℓ} : Type ℓ → Type ℓ
Dict V = List (Str × V)

module _ {ℓ} {V : Type ℓ} where
  unfoldable pub lookup : Str → Dict V → Option V
  lookup k [] = none
  lookup k ((j, v) ∷ m) = if str_eq j k then some v else lookup k m

  -- `m[k] = v`
  unfoldable pub insert : Str → V → Dict V → Dict V
  insert k v [] = (k, v) ∷ []
  insert k v ((j, w) ∷ m) = if str_eq j k then (k, v) ∷ m else (j, w) ∷ insert k v m

  -- `delete(m, k)`
  unfoldable pub delete : Str → Dict V → Dict V
  delete k [] = []
  delete k ((j, w) ∷ m) = if str_eq j k then delete k m else (j, w) ∷ delete k m

  abbrev pub keys : Dict V → List Str
  keys = map (λ e. e.0)

  pub lookup-insert :
      (k j : Str) (v : V) (m : Dict V)
      → lookup j (insert k v m) ≡ (if str_eq k j then some v else lookup j m)
  unfolding lookup insert
  lookup-insert k j v [] = refl
  lookup-insert k j v ((i, w) ∷ m) =
      ground (arith, str_eq_iff k j, str_eq_iff i k, str_eq_iff i j, lookup-insert k j v m)

  pub lookup-delete :
      (k j : Str) (m : Dict V) → lookup j (delete k m) ≡ (if str_eq k j then none else lookup j m)
  unfolding lookup delete
  lookup-delete k j [] = ground arith
  lookup-delete k j ((i, w) ∷ m) =
      ground (arith, str_eq_iff k j, str_eq_iff i k, str_eq_iff i j, lookup-delete k j m)

  -- Each key stands once, as in a Go map.
  abbrev pub IsMap : Dict V → Type ℓ
  IsMap [] = Unit
  IsMap ((k, v) ∷ m) = (lookup k m ≡ none) × IsMap m

  pub IsMap-insert : (k : Str) (v : V) (m : Dict V) → IsMap m → IsMap (insert k v m)
  unfolding insert lookup
  IsMap-insert k v [] h = (refl, tt)
  IsMap-insert k v ((j, w) ∷ m) (new, h) = elim (Bool-cases (str_eq j k)) [
    | inl here ↦ rw here (subst (λ y. lookup y m ≡ none) ((str_eq_iff j k).0 here) new, h)
    | inr there ↦ rw there (
      ground (arith, lookup-insert k j v m, str_eq_iff k j, str_eq_iff j k),
      IsMap-insert k v m h,
    )
  ]

  pub IsMap-delete : (k : Str) (m : Dict V) → IsMap m → IsMap (delete k m)
  unfolding delete lookup
  IsMap-delete k [] h = tt
  IsMap-delete k ((j, w) ∷ m) (new, h) = elim (Bool-cases (str_eq j k)) [
    | inl here ↦ rw here (IsMap-delete k m h)
    | inr there ↦ rw there (ground (arith, lookup-delete k j m), IsMap-delete k m h)
  ]
