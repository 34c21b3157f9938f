-- ===== src/Presexch/Tests.antt =====
-- Concrete runs of presexch/definition.go: two of three descriptors of a group, where a credential
-- fills the first and the last of them.
use vc_go.Prelude.{
  some, ◌≡◌, refl, ◌⊎◌, inr, false, List, [], ◌∷◌, Str, codes, str_eq, if◌then◌else◌,
}
use vc_go.Prelude.Int.{pos}
use vc_go.Prelude.Dicts.{lookup, insert}
use vc_go.Requirement.Sets.{has, add, add_all, init_from_slice, merge_into, merge_all}
use vc_go.Requirement.Logic
use vc_go.Requirement.Logic.{
  is_len_applicable, satisfied_descriptors, is_satisfied_by, num_satisfied, child_sets,
}
use vc_go.Requirement.Iterator.{
  BitsetIterator, place, new_bitset_iterator, current_from, current, increment_until_valid,
  has_index, add_index, matching_indices, exclude_indices, largest_index, remove_excluded,
  exclude_state, exclude_descriptors, advance, finish, next,
}
use vc_go.Presexch.Requirements.{
  InputDescriptor, submission, sub_nil, sub_cons, Requirement, req, req_nil, req_cons, built,
  contains, count_nested, in_group, rule_count, to_requirement, to_requirements, count_submissions,
  make_requirement, is_empty, logic_total, to_logic, to_nested, add_descriptors, descriptor_id_map,
  add_missing, get_all_descriptors, merge_nested,
}
use vc_go.Presexch.Apply.{
  ok, no_credentials, DescriptorMatch, pick_format, Progress, Pass, evaluate_id, record_match,
  unsolved, scan, collect_result, solve, apply_requirement,
}
use vc_go.Presexch.Scan.{IsPass}
use vc_go.Presexch.Pass.{scan-IsPass}
use vc_go.Presexch.Solution.{Solved}
use vc_go.Presexch.Found.{find_descriptor, find_nested, lookup-get_all_descriptors}
use vc_go.Presexch.Keyed.{get_all_descriptors-IsKeyed}
use vc_go.Presexch.Answer.{apply_requirement-Solved, IsSound-start}

program : Unit {0}
unfolding str_eq lookup insert has add add_all init_from_slice merge_into merge_all
    is_len_applicable satisfied_descriptors is_satisfied_by num_satisfied Logic.get_all_descriptors
    child_sets place new_bitset_iterator current_from current increment_until_valid has_index
    add_index matching_indices exclude_indices largest_index remove_excluded exclude_state
    exclude_descriptors advance finish next contains count_nested in_group rule_count to_requirement
    to_requirements count_submissions make_requirement is_empty logic_total to_logic to_nested
    add_descriptors descriptor_id_map add_missing get_all_descriptors merge_nested pick_format
    evaluate_id record_match unsolved scan collect_result solve apply_requirement find_descriptor
    find_nested
program = tt

abbrev descriptor : Str → Str → InputDescriptor (Unit {0})
descriptor id group = record { id = id; group = group ∷ []; details = tt }

abbrev descriptors : List (InputDescriptor (Unit {0}))
descriptors =
    descriptor (codes "a") (codes "g")
    ∷ descriptor (codes "b") (codes "g")
    ∷ descriptor (codes "c") (codes "g")
    ∷ []

abbrev pick_two : Requirement (Unit {0})
pick_two =
    req [] [] [] (pos 1) (pos 0) (pos 0) []
      (req_cons (req [] [] (codes "pick") (pos 2) (pos 0) (pos 0) descriptors req_nil) req_nil)

makes :
    make_requirement
      (sub_cons
        (submission [] [] (codes "pick") (pos 2) (pos 0) (pos 0) (codes "g") sub_nil)
        sub_nil)
      descriptors
    ≡ built pick_two
unfolding program
makes = refl

-- Credentials named for the descriptors that they fill, each of which fills its descriptor once.
abbrev use_up : Str → List Str → List Str
use_up id [] = []
use_up id (c ∷ creds) = let rest = use_up id creds in if str_eq c id then rest else c ∷ rest

abbrev fill : List Str → InputDescriptor (Unit {0}) → Str ⊎ (DescriptorMatch Str × List Str)
fill creds d =
    inr
      (record { format = []; creds = if has creds d.id then d.id ∷ [] else [] }, use_up d.id creds)

-- One SD-JWT credential with these claims, whose disclosures are limited to what the descriptor that
-- it fills asks for.
abbrev limit : List Str → InputDescriptor (Unit {0}) → Str ⊎ (DescriptorMatch Str × List Str)
limit claims d =
    if has claims d.id
    then inr (record { format = []; creds = codes "sd" ∷ [] }, d.id ∷ [])
    else inr (record { format = []; creds = [] }, claims)

abbrev held : List Str
held = codes "a" ∷ codes "c" ∷ []

abbrev start : BitsetIterator
start = record {
  req = to_logic pick_two;
  state = 0;
  descs = codes "a" ∷ codes "b" ∷ codes "c" ∷ [];
  idx_map = (codes "a", 0) ∷ (codes "b", 1) ∷ (codes "c", 2) ∷ [];
  done = false;
}

main :
    apply_requirement (inr held) fill pick_two descriptors (codes "ldp_vp")
    ≡ ok ((codes "ldp_vp", (codes "a", codes "a" ∷ []) ∷ (codes "c", codes "c" ∷ []) ∷ []), [])
unfolding program
main = refl

finds_none :
    apply_requirement (inr (codes "b" ∷ [])) fill pick_two descriptors (codes "ldp_vp")
    ≡ no_credentials
unfolding program
finds_none = refl

-- The credential fills each of the two descriptors on its own, but not the second after the first.
strips_disclosures :
    apply_requirement (inr held) limit pick_two descriptors (codes "ldp_vp") ≡ no_credentials
unfolding program
strips_disclosures = refl

apply_requirement-Solved_example :
    Solved fill
      (get_all_descriptors pick_two)
      held
      []
      (to_logic pick_two)
      start
      (apply_requirement (inr held) fill pick_two descriptors (codes "ldp_vp"))
unfolding program
apply_requirement-Solved_example =
    apply_requirement-Solved fill held pick_two descriptors (codes "ldp_vp") start refl
      (refl, (refl, (refl, tt))) ((_, refl), ((_, refl), ((_, refl), tt)))

-- Two nested requirements name the descriptor a: the first of them has the say.
abbrev two_named : Requirement (Unit {0})
two_named = req [] [] [] (pos 1) (pos 0) (pos 0) [] (
    req_cons
      (req [] [] (codes "all") (pos 1) (pos 0) (pos 0) (descriptor (codes "a") (codes "g") ∷ [])
        req_nil)
      (req_cons
        (req [] [] (codes "all") (pos 1) (pos 0) (pos 0) (descriptor (codes "a") (codes "h") ∷ [])
          req_nil)
        req_nil))

lookup-get_all_descriptors_example :
    lookup (codes "a") (get_all_descriptors two_named) ≡ some (descriptor (codes "a") (codes "g"))
unfolding program
lookup-get_all_descriptors_example = lookup-get_all_descriptors (codes "a") two_named

abbrev none_known : Progress (List Str) Str
none_known = record { evaluated = []; matches = []; framed_creds = held }

abbrev two_tried : Pass (List Str) Str
two_tried = record {
  progress = record {
    evaluated = codes "b" ∷ codes "a" ∷ [];
    matches = (codes "a", record { format = []; creds = codes "a" ∷ [] }) ∷ [];
    framed_creds = codes "c" ∷ [];
  };
  solved = false;
  exclude = codes "b" ∷ [];
}

scan-IsPass_example :
    IsPass fill
      (get_all_descriptors pick_two)
      held
      []
      (codes "a" ∷ codes "b" ∷ [])
      none_known
      two_tried
unfolding program
scan-IsPass_example =
    scan-IsPass fill (get_all_descriptors pick_two) held (get_all_descriptors-IsKeyed pick_two) []
      (codes "a" ∷ codes "b" ∷ []) none_known two_tried
      (IsSound-start fill (get_all_descriptors pick_two) held) refl
