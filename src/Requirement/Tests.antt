-- ===== src/Requirement/Tests.antt =====
-- Concrete runs of presexch/internal/requirementlogic: two descriptors out of three.
use mathlib.Core.Path.{subst, sym}
use vc_go.Prelude.{
  ℕ, inl, inr, Bool-cases, str_eq_iff, ◌^◌, ◌≤◌, ◌<◌, ◌≡◌, refl, ◌≢◌, ◌↔◌, false, true, List, [],
  ◌∷◌, some, arith, length, Str, codes, str_eq,
}
use vc_go.Prelude.Int.{pos}
use vc_go.Prelude.Dicts.{insert}
use vc_go.Requirement.Sets.{has, add, add_all, init_from_slice, merge_into, merge_all}
use vc_go.Requirement.Logic.{
  RequirementLogic, requirement, nil, cons, is_len_applicable, satisfied_descriptors,
  is_satisfied_by, num_satisfied, get_all_descriptors, child_sets,
}
use vc_go.Requirement.Satisfaction.{
  mentions, mentions_nested, has-get_all_descriptors, is_satisfied_by-agree,
}
use vc_go.Requirement.Iterator.{
  BitsetIterator, place, new_bitset_iterator, current_from, current, increment_until_valid,
  has_index, add_index, matching_indices, exclude_indices, largest_index, remove_excluded,
  exclude_state, exclude_descriptors, advance, finish, next,
}
use vc_go.Requirement.Masks.{chosen}
use vc_go.Requirement.Search.{advanced, next_total}
use vc_go.Requirement.Enumeration.{IsLive, IsRound, next-IsRound, collect, collect-remaining}
use vc_go.Requirement.Widen.{widen}
use vc_go.Requirement.Indices.{flags_of}
use vc_go.Requirement.Removal.{exclude_descriptors-widen, exclude_descriptors-in_range}
use vc_go.Requirement.Positions.{NoDup}
use vc_go.Requirement.Ahead.{AheadFrom, Ahead-exclude}

program : Unit {0}
unfolding str_eq insert has add add_all init_from_slice merge_into merge_all is_len_applicable
    satisfied_descriptors is_satisfied_by num_satisfied get_all_descriptors child_sets place
    new_bitset_iterator current_from current increment_until_valid has_index add_index
    matching_indices exclude_indices largest_index remove_excluded exclude_state exclude_descriptors
    advance finish next collect mentions mentions_nested chosen widen flags_of
program = tt

abbrev id_a : Str
id_a = codes "a"

abbrev id_b : Str
id_b = codes "b"

abbrev id_c : Str
id_c = codes "c"

abbrev three : List Str
three = id_a ∷ id_b ∷ id_c ∷ []

-- Two of three descriptors.
abbrev two_of : RequirementLogic
two_of = requirement three nil (pos 2) (pos 0) (pos 0)

abbrev start : BitsetIterator
start = record {
  req = two_of;
  state = 0;
  descs = three;
  idx_map = (id_a, 0) ∷ (id_b, 1) ∷ (id_c, 2) ∷ [];
  done = false;
}

main : new_bitset_iterator two_of three ≡ some start
unfolding program
main = refl

enumerates :
    collect 9 start ≡ some ((id_a ∷ id_b ∷ []) ∷ (id_a ∷ id_c ∷ []) ∷ (id_b ∷ id_c ∷ []) ∷ [])
unfolding program
enumerates = refl

start-IsLive : IsLive start
start-IsLive = record { running = refl; in_range = omega arith }

collect-remaining_example :
    collect 9 start ≡ some ((id_a ∷ id_b ∷ []) ∷ (id_a ∷ id_c ∷ []) ∷ (id_b ∷ id_c ∷ []) ∷ [])
unfolding program
collect-remaining_example = collect-remaining 9 start start-IsLive (omega arith)

next_total_example : (r : BitsetIterator × List Str) × (next [] start ≡ some r)
next_total_example = next_total [] start

next-IsRound_example :
    (b' : BitsetIterator) × (out : List Str) × (next [] start ≡ some (b', out))
    × IsRound (advanced [] start) b' out
unfolding program
next-IsRound_example = next-IsRound [] start refl (omega arith) (omega arith)

-- The iterator once it has found its first solution.
abbrev found : BitsetIterator
found = record start { state = 3 }

finds : next [] start ≡ some (found, id_a ∷ id_b ∷ [])
unfolding program
finds = refl

three-NoDup : NoDup three
unfolding program
three-NoDup = (refl, (refl, (refl, tt)))

Ahead-exclude_example : AheadFrom (advanced (id_b ∷ []) found) (id_a ∷ id_c ∷ [])
unfolding program
Ahead-exclude_example =
    Ahead-exclude found three-NoDup id_b refl (id_a ∷ id_c ∷ []) (5, omega arith, omega arith, refl)
      refl

nonempty : ◌≢◌ {A = List ℕ} (1 ∷ []) []
nonempty e = cc

exclude_descriptors-widen_example :
    (chosen 3 (exclude_descriptors (1 ∷ []) found).descs ≡ id_a ∷ id_c ∷ [])
    × (((exclude_descriptors (1 ∷ []) found).state ≤ 3) ↔ (3 < 5))
unfolding program
exclude_descriptors-widen_example =
    exclude_descriptors-widen (1 ∷ []) nonempty (refl, tt) found (omega arith) refl 3

exclude_descriptors-in_range_example :
    (exclude_descriptors (1 ∷ []) found).state
    ≤ 2 ^ length (exclude_descriptors (1 ∷ []) found).descs
unfolding program
exclude_descriptors-in_range_example =
    exclude_descriptors-in_range (1 ∷ []) nonempty (refl, tt) found (omega arith) refl (omega arith)

-- Two groups, of which one is to be satisfied.
abbrev one_group : RequirementLogic
one_group =
    requirement []
      (cons two_of (cons (requirement (codes "d" ∷ []) nil (pos 0) (pos 1) (pos 0)) nil)) (pos 1)
      (pos 0) (pos 0)

has-get_all_descriptors_example : has (get_all_descriptors one_group) (codes "d") ≡ true
unfolding program
has-get_all_descriptors_example = has-get_all_descriptors one_group (codes "d")

without_z :
    (x : Str)
    → has (get_all_descriptors one_group) x ≡ true
    → has (id_a ∷ id_b ∷ []) x ≡ has (codes "z" ∷ id_a ∷ id_b ∷ []) x
unfolding program
without_z x m = elim (Bool-cases (str_eq (codes "z") x)) [
  | inl z ↦
      let e = (str_eq_iff (codes "z") x).0 z in
      let bad : has (get_all_descriptors one_group) (codes "z") ≡ true =
        subst (λ y. has (get_all_descriptors one_group) y ≡ true) (sym e) m in
      cc
  | inr other ↦ rw other refl
]

is_satisfied_by-agree_example :
    is_satisfied_by one_group (id_a ∷ id_b ∷ [])
    ≡ is_satisfied_by one_group (codes "z" ∷ id_a ∷ id_b ∷ [])
is_satisfied_by-agree_example =
    is_satisfied_by-agree one_group (id_a ∷ id_b ∷ []) (codes "z" ∷ id_a ∷ id_b ∷ []) without_z
