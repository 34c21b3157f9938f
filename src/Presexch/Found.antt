-- ===== src/Presexch/Found.antt =====
-- What `getAllDescriptors` returns for an identifier.
use vc_go.Prelude.{
  ◌≡◌, ◌∙◌, refl, ap, inl, inr, List, [], ◌∷◌, Option, none, some, arith, if◌then◌else◌, Bool-cases,
  Str, str_eq, str_eq_iff,
}
use vc_go.Prelude.Dicts.{Dict, lookup, insert, lookup-insert}
use vc_go.Presexch.Requirements.{
  InputDescriptor, Requirement, req, Requirements, req_nil, req_cons, add_descriptors,
  descriptor_id_map, add_missing, get_all_descriptors, merge_nested,
}

-- The first of two results that is there.
abbrev pub or_else : {A : Type 0} → Option A → Option A → Option A
or_else none later = later
or_else (some a) later = some a

-- The last descriptor of the list with the identifier.
abbrev pub last_named : {D : Type 0} → Str → List (InputDescriptor D) → Option (InputDescriptor D)
last_named id [] = none
last_named id (d ∷ ds) = or_else (last_named id ds) (if str_eq d.id id then some d else none)

-- The search for an identifier in the tree: among the descriptors of a requirement that has some, the
-- last; or else in the nested requirements, the first that finds it.
unfoldable mutual
  pub find_descriptor : {D : Type 0} → Str → Requirement D → Option (InputDescriptor D)
  find_descriptor id (req name purpose rule count min max (d ∷ ds) nested) = last_named id (d ∷ ds)
  find_descriptor id (req name purpose rule count min max [] nested) = find_nested id nested

  pub find_nested : {D : Type 0} → Str → Requirements D → Option (InputDescriptor D)
  find_nested id req_nil = none
  find_nested id (req_cons r rs) = or_else (find_descriptor id r) (find_nested id rs)

module _ {D : Type 0} (id : Str) where
  lookup-add_descriptors :
      (ds : List (InputDescriptor D)) (out : Dict (InputDescriptor D))
      → lookup id (add_descriptors ds out) ≡ or_else (last_named id ds) (lookup id out)
  unfolding add_descriptors
  lookup-add_descriptors [] out = refl
  lookup-add_descriptors (d ∷ ds) out =
      rw (lookup-add_descriptors ds (insert d.id d out))
        (ground (arith, lookup-insert d.id id d out))

  or_else_assoc :
      (a b c : Option (InputDescriptor D)) → or_else (or_else a b) c ≡ or_else a (or_else b c)
  or_else_assoc none b c = refl
  or_else_assoc (some d) b c = refl

  or_else-none : (a : Option (InputDescriptor D)) → or_else a none ≡ a
  or_else-none none = refl
  or_else-none (some d) = refl

  lookup-add_first :
      (s : Str) (d : InputDescriptor D) (child out : Dict (InputDescriptor D))
      → or_else
          (lookup id (elim (lookup s out) [ none ↦ insert s d out | some _ ↦ out ]))
          (lookup id child)
        ≡ or_else (lookup id out) (lookup id ((s, d) ∷ child))
  unfolding lookup
  lookup-add_first s d child out = elim (Bool-cases (str_eq s id)) [
    | inl here ↦
        let same : lookup s out ≡ lookup id out =
          ap (λ k. lookup k out) ((str_eq_iff s id).0 here) in
        ground (arith, lookup-insert s id d out)
    | inr other ↦ ground (arith, lookup-insert s id d out)
  ]

  lookup-add_missing :
      (out child : Dict (InputDescriptor D))
      → lookup id (add_missing out child) ≡ or_else (lookup id out) (lookup id child)
  unfolding add_missing lookup
  lookup-add_missing out [] = ground arith
  lookup-add_missing out ((s, d) ∷ child) =
      lookup-add_missing (elim (lookup s out) [ none ↦ insert s d out | some _ ↦ out ]) child
      ∙ lookup-add_first s d child out

  mutual
    unfolding get_all_descriptors merge_nested descriptor_id_map lookup find_descriptor find_nested

    found-all : (r : Requirement D) → lookup id (get_all_descriptors r) ≡ find_descriptor id r
    found-all (req name purpose rule count min max (d ∷ ds) nested) =
        lookup-add_descriptors (d ∷ ds) [] ∙ or_else-none (last_named id (d ∷ ds))
    found-all (req name purpose rule count min max [] nested) = found-nested nested []

    found-nested :
        (rs : Requirements D) (out : Dict (InputDescriptor D))
        → lookup id (merge_nested rs out) ≡ or_else (lookup id out) (find_nested id rs)
    found-nested req_nil out = ground arith
    found-nested (req_cons r rs) out =
        rw
          (
            found-nested rs (add_missing out (get_all_descriptors r)),
            lookup-add_missing out (get_all_descriptors r),
            found-all r,
          )
          (or_else_assoc (lookup id out) (find_descriptor id r) (find_nested id rs))

  -- `getAllDescriptors` returns for an identifier what a search of the tree finds: among the
  -- descriptors of a requirement that has some, the last with the identifier; or else in its nested
  -- requirements in order, what the first of them that has the identifier has for it.
  pub lookup-get_all_descriptors :
      (r : Requirement D) → lookup id (get_all_descriptors r) ≡ find_descriptor id r
  lookup-get_all_descriptors r = found-all r
