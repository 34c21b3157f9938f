-- ===== src/Presexch/Requirements.antt =====
-- presexch/definition.go: from submission requirements to the tree of requirements that is solved.
use vc_go.Prelude.{
  ℕ, suc, Bool, true, false, ◌&&◌, List, [], ◌∷◌, map, none, some, if◌then◌else◌, length, Str,
  str_eq, codes,
}
use vc_go.Prelude.Int.{ℤ, pos, eqb_ℤ}
use vc_go.Prelude.Dicts.{Dict, lookup, insert}
use vc_go.Requirement.Logic
use vc_go.Requirement.Logic.{RequirementLogic}

-- `InputDescriptor`. `details` stands for the fields that only the credential filters read.
pub record InputDescriptor (D : Type 0) : Type 0 where
  pub id : Str
  pub group : List Str
  pub details : D

-- The struct's fields in its order: Name, Purpose, Rule, Count, Min, Max, From, FromNested.
mutual
  pub data SubmissionRequirement : Type 0 where
    submission : Str → Str → Str → ℤ → ℤ → ℤ → Str → SubmissionRequirements → SubmissionRequirement

  pub data SubmissionRequirements : Type 0 where
    sub_nil : SubmissionRequirements
    sub_cons : SubmissionRequirement → SubmissionRequirements → SubmissionRequirements

-- The struct `requirement`: Name, Purpose, Rule, Count, Min, Max, InputDescriptors, Nested.
mutual
  pub data Requirement (D : Type 0) : Type 0 where
    req : Str → Str → Str → ℤ → ℤ → ℤ → List (InputDescriptor D) → Requirements D → Requirement D

  pub data Requirements (D : Type 0) : Type 0 where
    req_nil : Requirements D
    req_cons : Requirement D → Requirements D → Requirements D

-- The Go function's error, with the group that has no descriptor.
pub data Built (A : Type 0) : Type 0 where
  built : A → Built A
  no_descriptors : Str → Built A

infixl 5 ◌>>=◌
abbrev pub ◌>>=◌ : {A B : Type 0} → Built A → (A → Built B) → Built B
no_descriptors from >>= after = no_descriptors from
built a >>= after = after a

-- `All`, the value of the rule.
abbrev pub all_rule : Str
all_rule = codes "all"

unfoldable pub contains : List Str → Str → Bool
contains [] e = false
contains (el ∷ els) e = if str_eq el e then true else contains els e

unfoldable pub count_nested : {D : Type 0} → Requirements D → ℕ
count_nested req_nil = 0
count_nested (req_cons r rs) = suc (count_nested rs)

-- Selects the descriptors of a group.
unfoldable pub in_group : {D : Type 0} → Str → List (InputDescriptor D) → List (InputDescriptor D)
in_group from [] = []
in_group from (d ∷ ds) =
    let rest = in_group from ds in if contains d.group from then d ∷ rest else rest

-- `if sr.Rule == All { count = totalCount }`
unfoldable pub rule_count : Str → ℤ → ℕ → ℤ
rule_count rule count total = if str_eq rule all_rule then pos total else count

unfoldable mutual
  pub to_requirement :
      {D : Type 0} → SubmissionRequirement → List (InputDescriptor D) → Built (Requirement D)
  to_requirement (submission name purpose rule count min max [] nested) descriptors =
      to_requirements nested descriptors >>= λ rs.
      built (req name purpose rule (rule_count rule count (count_nested rs)) min max [] rs)
  to_requirement (submission name purpose rule count min max (c ∷ from) nested) descriptors =
      elim (in_group (c ∷ from) descriptors) [
        | [] ↦ no_descriptors (c ∷ from)
        | d ∷ ds ↦ built (
            req name purpose rule (rule_count rule count (length (d ∷ ds))) min max (d ∷ ds)
              req_nil)
      ]

  pub to_requirements :
      {D : Type 0} → SubmissionRequirements → List (InputDescriptor D) → Built (Requirements D)
  to_requirements sub_nil descriptors = built req_nil
  to_requirements (sub_cons s ss) descriptors = to_requirement s descriptors >>= λ r.
      to_requirements ss descriptors >>= λ rs. built (req_cons r rs)

unfoldable pub count_submissions : SubmissionRequirements → ℕ
count_submissions sub_nil = 0
count_submissions (sub_cons s ss) = suc (count_submissions ss)

unfoldable pub make_requirement :
    {D : Type 0} → SubmissionRequirements → List (InputDescriptor D) → Built (Requirement D)
make_requirement sub_nil descriptors =
    built (req [] [] [] (pos (length descriptors)) (pos 0) (pos 0) descriptors req_nil)
make_requirement (sub_cons s ss) descriptors = to_requirements (sub_cons s ss) descriptors >>= λ rs.
    built (req [] [] [] (pos (count_submissions (sub_cons s ss))) (pos 0) (pos 0) [] rs)

unfoldable pub is_empty : {A : Type 0} → List A → Bool
is_empty [] = true
is_empty (x ∷ xs) = false

-- `total` in `toLogic`: the nested requirements count, if there are any.
unfoldable pub logic_total : {D : Type 0} → List (InputDescriptor D) → Requirements D → ℕ
logic_total descriptors req_nil = length descriptors
logic_total descriptors (req_cons r rs) = count_nested (req_cons r rs)

unfoldable mutual
  pub to_logic : {D : Type 0} → Requirement D → RequirementLogic
  to_logic (req name purpose rule count min max descriptors nested) =
      Logic.requirement (map (λ d. d.id) descriptors) (to_nested nested) count min (
        if eqb_ℤ count (pos 0) && eqb_ℤ max (pos 0)
        then pos (logic_total descriptors nested)
        else max)

  pub to_nested : {D : Type 0} → Requirements D → Logic.Nested
  to_nested req_nil = Logic.nil
  to_nested (req_cons r rs) = Logic.cons (to_logic r) (to_nested rs)

-- The loop of `descriptorIDMap`.
unfoldable pub add_descriptors :
    {D : Type 0} → List (InputDescriptor D) → Dict (InputDescriptor D) → Dict (InputDescriptor D)
add_descriptors [] out = out
add_descriptors (d ∷ ds) out = add_descriptors ds (insert d.id d out)

unfoldable pub descriptor_id_map :
    {D : Type 0} → List (InputDescriptor D) → Dict (InputDescriptor D)
descriptor_id_map descs = add_descriptors descs []

-- Takes over the entries of a child whose key is not there yet.
unfoldable pub add_missing :
    {D : Type 0} → Dict (InputDescriptor D) → Dict (InputDescriptor D) → Dict (InputDescriptor D)
add_missing out [] = out
add_missing out ((s, d) ∷ child) =
    add_missing (elim (lookup s out) [ none ↦ insert s d out | some _ ↦ out ]) child

unfoldable mutual
  pub get_all_descriptors : {D : Type 0} → Requirement D → Dict (InputDescriptor D)
  get_all_descriptors (req name purpose rule count min max (d ∷ ds) nested) =
      descriptor_id_map (d ∷ ds)
  get_all_descriptors (req name purpose rule count min max [] nested) = merge_nested nested []

  -- The loop over `r.Nested`, onto `out`.
  pub merge_nested :
      {D : Type 0} → Requirements D → Dict (InputDescriptor D) → Dict (InputDescriptor D)
  merge_nested req_nil out = out
  merge_nested (req_cons r rs) out = merge_nested rs (add_missing out (get_all_descriptors r))
