-- ===== src/Util/Objects.antt =====
-- What the helpers on JSON objects return under each key.
use mathlib.Core.Path.{subst, ap}
use vc_go.Prelude.{
  ◌≡◌, refl, inl, inr, Bool, true, false, not, List, [], ◌∷◌, none, some, arith, if◌then◌else◌,
  Bool-cases, Str, str_eq, str_eq_iff,
}
use vc_go.Prelude.Dicts.{
  Dict, lookup, insert, delete, lookup-insert, lookup-delete, IsMap, IsMap-insert,
}
use vc_go.Requirement.Sets.{has}
use vc_go.Util.Json.{
  copy_where, split_json_obj, shallow_copy_obj, delete_all, copy_except, add_custom_fields,
}

module _ {V : Type 0} where
  lookup-put :
      (passes : Bool) (k x : Str) (v : V) (out : Dict V)
      → str_eq k x ≡ true
      → lookup x (if passes then insert k v out else out)
        ≡ (if passes then some v else lookup x out)
  lookup-put passes k x v out here = ground (arith, lookup-insert k x v out)

  lookup-skip :
      (passes : Bool) (k x : Str) (v : V) (out : Dict V)
      → str_eq k x ≡ false
      → lookup x (if passes then insert k v out else out) ≡ lookup x out
  lookup-skip passes k x v out there = ground (arith, lookup-insert k x v out)

  lookup-copy_where :
      (p : Str → Bool) (m out : Dict V) (x : Str)
      → IsMap m
      → lookup x (copy_where p m out)
        ≡ elim (lookup x m) [ none ↦ lookup x out | some v ↦ if p x then some v else lookup x out ]
  unfolding copy_where lookup
  lookup-copy_where p [] out x h = refl
  lookup-copy_where p ((k, v) ∷ m) out x (new, h) = elim (Bool-cases (str_eq k x)) [
    | inl here ↦
        let e = (str_eq_iff k x).0 here in
        let absent : lookup x m ≡ none = subst (λ y. lookup y m ≡ none) e new in
        let same : p k ≡ p x = ap p e in
        rw (here, lookup-copy_where p m (if p k then insert k v out else out) x h, absent, same)
          (lookup-put (p x) k x v out here)
    | inr there ↦
        rw (there, lookup-copy_where p m (if p k then insert k v out else out) x h)
          (ap (λ o. elim (lookup x m) [ none ↦ o | some w ↦ if p x then some w else o ])
            (lookup-skip (p k) k x v out there))
  ]

  lookup-delete_all :
      (m : Dict V) (flds : List Str) (x : Str)
      → lookup x (delete_all m flds) ≡ (if has flds x then none else lookup x m)
  unfolding delete_all has
  lookup-delete_all m [] x = refl
  lookup-delete_all m (fld ∷ flds) x =
      rw (lookup-delete_all (delete fld m) flds x) (ground (arith, lookup-delete fld x m))

  -- `AddCustomFields` with distinct custom keys keeps the object's entries and takes over those whose
  -- key it does not have.
  pub lookup-add_custom_fields :
      (obj cf : Dict V) (x : Str)
      → IsMap cf
      → lookup x (add_custom_fields obj cf)
        ≡ elim (lookup x obj) [ none ↦ lookup x cf | some v ↦ some v ]
  unfolding add_custom_fields lookup
  lookup-add_custom_fields obj [] x h = ground arith
  lookup-add_custom_fields obj ((k, v) ∷ cf) x (new, h) =
      rw
        (lookup-add_custom_fields (elim (lookup k obj) [ none ↦ insert k v obj | some _ ↦ obj ]) cf
          x h)
        (elim (Bool-cases (str_eq k x)) [
          | inl here ↦
              let e = (str_eq_iff k x).0 here in
              let absent : lookup x cf ≡ none = subst (λ y. lookup y cf ≡ none) e new in
              let same : lookup k obj ≡ lookup x obj = ap (λ y. lookup y obj) e in
              ground (arith, lookup-insert k x v obj)
          | inr there ↦ ground (arith, lookup-insert k x v obj)
        ])

  IsMap-copy_where : (p : Str → Bool) (m out : Dict V) → IsMap out → IsMap (copy_where p m out)
  unfolding copy_where
  IsMap-copy_where p [] out h = h
  IsMap-copy_where p ((k, v) ∷ m) out h = elim (Bool-cases (p k)) [
    | inl passes ↦ rw passes (IsMap-copy_where p m (insert k v out) (IsMap-insert k v out h))
    | inr fails ↦ rw fails (IsMap-copy_where p m out h)
  ]

  -- `CopyExcept` of an object with distinct keys returns its entries under all keys but the given
  -- ones.
  pub lookup-copy_except :
      (json : Dict V) (flds : List Str) (x : Str)
      → IsMap json
      → lookup x (copy_except json flds) ≡ (if has flds x then none else lookup x json)
  unfolding copy_except shallow_copy_obj lookup
  lookup-copy_except json flds x h =
      rw
        (
          lookup-delete_all (copy_where (λ k. true) json []) flds x,
          lookup-copy_where (λ k. true) json [] x h,
        )
        (ground arith)

  -- Splitting an object with distinct keys, the first half has its entries under the given fields and
  -- no others, the second half its entries under all other keys and no others, and adding the second
  -- half to the first as custom fields returns the object's entry under every key.
  pub lookup-split :
      (json : Dict V) (flds : List Str) (x : Str)
      → IsMap json
      → (lookup x (split_json_obj json flds).0 ≡ (if has flds x then lookup x json else none))
        × (lookup x (split_json_obj json flds).1 ≡ (if has flds x then none else lookup x json))
        × (lookup x (add_custom_fields (split_json_obj json flds).0 (split_json_obj json flds).1)
            ≡ lookup x json)
  unfolding split_json_obj lookup
  lookup-split json flds x h = (
    ground (arith, lookup-copy_where (λ k. has flds k) json [] x h),
    ground (arith, lookup-copy_where (λ k. not (has flds k)) json [] x h),
    rw
        (
          lookup-add_custom_fields (copy_where (λ k. has flds k) json [])
              (copy_where (λ k. not (has flds k)) json []) x
              (IsMap-copy_where (λ k. not (has flds k)) json [] tt),
          lookup-copy_where (λ k. has flds k) json [] x h,
        )
        (ground (arith, lookup-copy_where (λ k. not (has flds k)) json [] x h)),
  )
