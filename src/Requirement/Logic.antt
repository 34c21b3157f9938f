-- ===== src/Requirement/Logic.antt =====
-- presexch/internal/requirementlogic/requirementlogic.go: `RequirementLogic`, the tree of nested
-- submission requirements, and the test whether a set of descriptors satisfies it.
use vc_go.Prelude.{ℕ, suc, Bool, true, false, not, ◌&&◌, List, [], ◌∷◌, if◌then◌else◌, Str}
use vc_go.Prelude.Int.{ℤ, pos, ltb_ℤ, eqb_ℤ}
use vc_go.Requirement.Sets.{StringSet, has, add, len, init_from_slice, merge_all}

-- The struct's fields in its order: InputDescriptorIDs, Nested, Count, Min, Max.
mutual
  pub data RequirementLogic : Type 0 where
    requirement : List Str → Nested → ℤ → ℤ → ℤ → RequirementLogic

  pub data Nested : Type 0 where
    nil : Nested
    cons : RequirementLogic → Nested → Nested

unfoldable pub accept_interval : RequirementLogic → ℤ × ℤ
accept_interval (requirement ids nested count min max) =
    if ltb_ℤ (pos 0) count then (count, count) else (min, max)

-- `isLenApplicable`, over the three fields that it reads.
unfoldable pub is_len_applicable : ℤ → ℤ → ℤ → ℕ → Bool
is_len_applicable count min max val =
    if ltb_ℤ (pos 0) count && not (eqb_ℤ (pos val) count)
    then false
    else if ltb_ℤ (pos 0) min && ltb_ℤ (pos val) min
    then false
    else if ltb_ℤ (pos 0) max && ltb_ℤ max (pos val)
    then false
    else true

-- The loop over `r.InputDescriptorIDs`.
unfoldable pub satisfied_descriptors : StringSet → List Str → StringSet → StringSet
satisfied_descriptors descs [] satisfied = satisfied
satisfied_descriptors descs (id ∷ ids) satisfied =
    satisfied_descriptors descs ids (if has descs id then add satisfied id else satisfied)

unfoldable mutual
  pub is_satisfied_by : RequirementLogic → StringSet → Bool
  is_satisfied_by (requirement ids nil count min max) descs =
      is_len_applicable count min max (len (satisfied_descriptors descs ids []))
  is_satisfied_by (requirement ids (cons r rs) count min max) descs =
      is_len_applicable count min max
        (if is_satisfied_by r descs then suc (num_satisfied rs descs) else num_satisfied rs descs)

  -- `numChildrenSatisfied` after the loop.
  pub num_satisfied : Nested → StringSet → ℕ
  num_satisfied nil descs = 0
  num_satisfied (cons r rs) descs =
      if is_satisfied_by r descs then suc (num_satisfied rs descs) else num_satisfied rs descs

unfoldable mutual
  pub get_all_descriptors : RequirementLogic → StringSet
  get_all_descriptors (requirement ids nil count min max) = init_from_slice ids
  get_all_descriptors (requirement ids (cons r rs) count min max) =
      merge_all (get_all_descriptors r ∷ child_sets rs)

  pub child_sets : Nested → List StringSet
  child_sets nil = []
  child_sets (cons r rs) = get_all_descriptors r ∷ child_sets rs
