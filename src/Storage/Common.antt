-- ===== src/Storage/Common.antt =====
-- `commonDBEntries`: the entries that all results have, by counting how often each key turns up.
use mathlib.Core.Path.{subst}
use vc_go.Prelude.{
  ℕ, ◌+◌, ◌≤◌, ◌<◌, ◌≡◌, refl, ap, ◌⊎◌, inl, inr, Bool, true, false, [], ◌∷◌, Option, none, some,
  arith, if◌then◌else◌, Bool-cases, length, ◌==◌, Str, str_eq, str_eq_iff,
}
use vc_go.Prelude.Dicts.{Dict, lookup, insert, lookup-insert, IsMap, IsMap-insert}
use vc_go.Storage.Types.{DbEntry}
use vc_go.Storage.Query.{
  count_of, count_result, collect_values, count_results, collect_results, select_common,
  common_db_entries,
}

abbrev present : Option DbEntry → ℕ
present none = 0
present (some e) = 1

-- In how many results a key turns up.
abbrev hits : Str → Dict (Dict DbEntry) → ℕ
hits k [] = 0
hits k ((name, r) ∷ rs) = present (lookup k r) + hits k rs

abbrev pub AllMaps : Dict (Dict DbEntry) → Type 0
AllMaps [] = Unit
AllMaps ((name, r) ∷ rs) = IsMap r × AllMaps rs

-- What each result has under the key is the entry of the store.
abbrev pub AllFrom : Dict DbEntry → Str → Dict (Dict DbEntry) → Type 0
AllFrom db k [] = Unit
AllFrom db k ((name, r) ∷ rs) = ((lookup k r ≡ none) ⊎ (lookup k r ≡ lookup k db)) × AllFrom db k rs

count_of-insert :
    (j k : Str) (n : ℕ) (km : Dict ℕ)
    → count_of k (insert j n km) ≡ (if str_eq j k then n else count_of k km)
unfolding count_of
count_of-insert j k n km = ground (arith, lookup-insert j k n km)

count_of-count_result :
    (r : Dict DbEntry) (km : Dict ℕ) (k : Str)
    → IsMap r
    → count_of k (count_result r km) ≡ count_of k km + present (lookup k r)
unfolding count_result lookup
count_of-count_result [] km k h = omega arith
count_of-count_result ((j, e) ∷ r) km k (new, h) = elim (Bool-cases (str_eq j k)) [
  | inl here ↦
      let same = (str_eq_iff j k).0 here in
      let absent : lookup k r ≡ none = subst (λ x. lookup x r ≡ none) same new in
      let counted : count_of j km ≡ count_of k km = ap (λ x. count_of x km) same in
      ground (
        arith,
        count_of-count_result r (insert j (count_of j km + 1) km) k h,
        count_of-insert j k (count_of j km + 1) km,
      )
  | inr there ↦ ground (
    arith,
    count_of-count_result r (insert j (count_of j km + 1) km) k h,
    count_of-insert j k (count_of j km + 1) km,
  )
]

count_of-count_results :
    (rs : Dict (Dict DbEntry)) (km : Dict ℕ) (k : Str)
    → AllMaps rs
    → count_of k (count_results rs km) ≡ count_of k km + hits k rs
unfolding count_results
count_of-count_results [] km k h = omega arith
count_of-count_results ((name, r) ∷ rs) km k (h, hs) =
    omega
      (arith, count_of-count_results rs (count_result r km) k hs, count_of-count_result r km k h)

IsMap-count_result : (r : Dict DbEntry) (km : Dict ℕ) → IsMap km → IsMap (count_result r km)
unfolding count_result
IsMap-count_result [] km h = h
IsMap-count_result ((j, e) ∷ r) km h =
    IsMap-count_result r _ (IsMap-insert j (count_of j km + 1) km h)

IsMap-count_results :
    (rs : Dict (Dict DbEntry)) (km : Dict ℕ) → IsMap km → IsMap (count_results rs km)
unfolding count_results
IsMap-count_results [] km h = h
IsMap-count_results ((name, r) ∷ rs) km h = IsMap-count_results rs _ (IsMap-count_result r km h)

lookup-select_common :
    (n : ℕ) (km : Dict ℕ) (vm : Dict DbEntry) (k : Str)
    → 0 < n
    → IsMap km
    → lookup k (select_common n km vm) ≡ (if count_of k km == n then lookup k vm else none)
unfolding select_common count_of lookup
lookup-select_common n [] vm k pos h = ground arith
lookup-select_common n ((j, c) ∷ km) vm k pos (new, h) = elim (Bool-cases (str_eq j k)) [
  | inl here ↦
      let same = (str_eq_iff j k).0 here in
      let absent : lookup k km ≡ none = subst (λ x. lookup x km ≡ none) same new in
      let valued : lookup j vm ≡ lookup k vm = ap (λ x. lookup x vm) same in
      ground (arith, lookup-select_common n km vm k pos h)
  | inr there ↦ ground (arith, lookup-select_common n km vm k pos h)
]

lookup-collect_values :
    (r vm : Dict DbEntry) (k : Str)
    → IsMap r
    → lookup k (collect_values r vm) ≡ elim (lookup k r) [ none ↦ lookup k vm | some e ↦ some e ]
unfolding collect_values lookup
lookup-collect_values [] vm k h = refl
lookup-collect_values ((j, e) ∷ r) vm k (new, h) = elim (Bool-cases (str_eq j k)) [
  | inl here ↦
      let same = (str_eq_iff j k).0 here in
      let absent : lookup k r ≡ none = subst (λ x. lookup x r ≡ none) same new in
      ground (arith, lookup-collect_values r (insert j e vm) k h, lookup-insert j k e vm)
  | inr there ↦ ground (arith, lookup-collect_values r (insert j e vm) k h, lookup-insert j k e vm)
]

lookup-collect_results :
    (db : Dict DbEntry) (k : Str) (rs : Dict (Dict DbEntry)) (vm : Dict DbEntry)
    → AllMaps rs
    → AllFrom db k rs
    → (lookup k vm ≡ lookup k db) ⊎ (0 < hits k rs)
    → lookup k (collect_results rs vm) ≡ lookup k db
unfolding collect_results
lookup-collect_results db k [] vm hs fs known = ground arith
lookup-collect_results db k ((name, r) ∷ rs) vm (h, hs) (f, fs) known =
    lookup-collect_results db k rs (collect_values r vm) hs fs
      (ground (arith, lookup-collect_values r vm k h))

-- Every result has the key.
abbrev pub in_all : Str → Dict (Dict DbEntry) → Bool
in_all k [] = true
in_all k ((name, r) ∷ rs) = elim (lookup k r) [ none ↦ false | some e ↦ in_all k rs ]

hits-le-length : (k : Str) (rs : Dict (Dict DbEntry)) → hits k rs ≤ length rs
hits-le-length k [] = omega arith
hits-le-length k ((name, r) ∷ rs) = ground (arith, hits-le-length k rs)

hits-in_all : (k : Str) (rs : Dict (Dict DbEntry)) → (hits k rs == length rs) ≡ in_all k rs
hits-in_all k [] = refl
hits-in_all k ((name, r) ∷ rs) = ground (arith, hits-le-length k rs, hits-in_all k rs)

counted :
    (rs : Dict (Dict DbEntry)) (k : Str) → AllMaps rs → count_of k (count_results rs []) ≡ hits k rs
unfolding count_of lookup
counted rs k hs = omega (arith, count_of-count_results rs [] k hs)

-- The common entries of some results from one store are the store's entries that all of them have.
pub lookup-common_db_entries :
    (db : Dict DbEntry) (k : Str) (rs : Dict (Dict DbEntry))
    → 0 < length rs
    → AllMaps rs
    → AllFrom db k rs
    → lookup k (common_db_entries rs) ≡ (if in_all k rs then lookup k db else none)
unfolding common_db_entries
lookup-common_db_entries db k rs more hs fs =
    rw
      (
        lookup-select_common (length rs) (count_results rs []) (collect_results rs []) k more
            (IsMap-count_results rs [] tt),
        counted rs k hs,
        hits-in_all k rs,
      )
      (elim (Bool-cases (in_all k rs)) [
        | inl all ↦ rw all (lookup-collect_results db k rs [] hs fs (inr (present_all all)))
        | inr missing ↦ rw missing refl
      ])
  where
    present_all : in_all k rs ≡ true → 0 < hits k rs
    present_all all = ground (arith, hits-in_all k rs)
