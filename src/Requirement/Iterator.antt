-- ===== src/Requirement/Iterator.antt =====
-- presexch/internal/requirementlogic/requirementlogic.go: `BitsetSolutionIterator`. The `big.Int` that
-- holds the iterator's state never falls below zero, so it is a natural number.
use Prim.Native.Nat.{bit_and}
use vc_go.Prelude.{
  ℕ, zero, suc, ◌+◌, ◌-◌, ◌/◌, ◌%◌, ◌^◌, Bool, true, false, ◌||◌, List, [], ◌∷◌, Option, none, some,
  if◌then◌else◌, ltb, ◌==◌, length, set, replicate, Str, str_eq,
}
use vc_go.Prelude.Dicts.{Dict, insert}
use vc_go.Requirement.Sets.{StringSet, has, len, init_from_slice}
use vc_go.Requirement.Logic.{RequirementLogic, is_satisfied_by, get_all_descriptors}

pub record BitsetIterator : Type 0 where
  pub req : RequirementLogic
  pub state : ℕ
  pub descs : List Str
  pub idx_map : Dict ℕ
  pub done : Bool

-- `x.Bit(i)`, `x.AndNot(x, y)` and `x.Rsh(x, k)` of `big.Int`, on numbers that are not negative.
abbrev pub bit : ℕ → ℕ → ℕ
bit x i = x / 2 ^ i % 2

abbrev pub and_not : ℕ → ℕ → ℕ
and_not x y = x - bit_and x y

abbrev pub rsh : ℕ → ℕ → ℕ
rsh x k = x / 2 ^ k

-- The loop of `NewBitsetIterator`. A write past the end of `useDescs` panics, here `none`.
unfoldable pub place : StringSet → List Str → ℕ → Dict ℕ → List Str → Option (Dict ℕ × List Str)
place wanted [] i idx_map use_descs = some (idx_map, use_descs)
place wanted (desc ∷ descs) i idx_map use_descs =
    let used = place wanted descs (i + 1) (insert desc i idx_map) (set use_descs i desc) in
    let skipped = place wanted descs i idx_map use_descs in
    if has wanted desc then if ltb i (length use_descs) then used else none else skipped

-- The slots that no descriptor fills stay the empty string.
unfoldable pub new_bitset_iterator : RequirementLogic → List Str → Option BitsetIterator
new_bitset_iterator req descs =
    elim (place (get_all_descriptors req) descs 0 []
      (replicate (len (get_all_descriptors req)) [])) [
        | none ↦ none
        | some (idx_map, use_descs) ↦
            some
              (record { req = req; state = 0; descs = use_descs; idx_map = idx_map; done = false })
      ]

-- `current`: the loop from index `i` on.
unfoldable pub current_from : ℕ → ℕ → List Str → List Str
current_from state i [] = []
current_from state i (desc ∷ descs) =
    let rest = current_from state (i + 1) descs in if bit state i == 1 then desc ∷ rest else rest

unfoldable pub current : ℕ → List Str → List Str
current state descs = current_from state 0 descs

-- `incrementUntilValid`: the new state and the solution, `[]` for Go's nil. `none` means that the
-- fuel ran out.
unfoldable pub increment_until_valid : ℕ → RequirementLogic → List Str → ℕ → Option (ℕ × List Str)
increment_until_valid zero req descs state = none
increment_until_valid (suc fuel) req descs state = elim (current state descs) [
  | [] ↦ some (state, [])
  | d ∷ ds ↦
      let rest = increment_until_valid fuel req descs (state + 1) in
      if is_satisfied_by req (init_from_slice (d ∷ ds)) then some (state, d ∷ ds) else rest
]

-- A Go map `map[int]struct{}`, as the list of its keys.
unfoldable pub has_index : List ℕ → ℕ → Bool
has_index [] i = false
has_index (j ∷ js) i = j == i || has_index js i

unfoldable pub add_index : List ℕ → ℕ → List ℕ
add_index js i = if has_index js i then js else i ∷ js

-- The inner loop of `Next`, from index `i` on.
unfoldable pub matching_indices : Str → ℕ → List Str → List ℕ → List ℕ
matching_indices desc i [] found = found
matching_indices desc i (s ∷ descs) found =
    matching_indices desc (i + 1) descs (if str_eq desc s then add_index found i else found)

unfoldable pub exclude_indices : List Str → List Str → List ℕ → List ℕ
exclude_indices [] descs found = found
exclude_indices (desc ∷ exclude_ids) descs found =
    exclude_indices exclude_ids descs (matching_indices desc 0 descs found)

unfoldable pub largest_index : List ℕ → ℕ → ℕ
largest_index [] largest = largest
largest_index (i ∷ is) largest = largest_index is (if ltb largest i then i else largest)

-- The descriptors whose index is not excluded, from index `i` on.
unfoldable pub remove_excluded : List ℕ → ℕ → List Str → List Str
remove_excluded excluded i [] = []
remove_excluded excluded i (desc ∷ descs) =
    let rest = remove_excluded excluded (i + 1) descs in
    if has_index excluded i then rest else desc ∷ rest

-- The new state of `excludeDescriptors`: bits below the largest index cleared, that index's bit
-- added, and a shift by the number of the excluded.
unfoldable pub exclude_state : List ℕ → ℕ → ℕ
exclude_state excluded state =
    let exclude_bit = 2 ^ largest_index excluded 0 in
    rsh (and_not state (exclude_bit - 1) + exclude_bit) (length excluded)

unfoldable pub exclude_descriptors : List ℕ → BitsetIterator → BitsetIterator
exclude_descriptors excluded b = record b {
  state = exclude_state excluded b.state;
  descs = remove_excluded excluded 0 b.descs;
}

-- The first half of `next`.
unfoldable pub advance : List ℕ → BitsetIterator → BitsetIterator
advance [] b = record b { state = b.state + 1 }
advance (i ∷ is) b = exclude_descriptors (i ∷ is) b

unfoldable pub finish : BitsetIterator → ℕ × List Str → BitsetIterator × List Str
finish b (state, []) = (record b { state = state; done = true }, [])
finish b (state, d ∷ ds) = (record b { state = state }, d ∷ ds)

-- `Next`: the iterator after the call, and the solution. The fuel covers every state up to the next
-- one with no descriptor chosen.
unfoldable pub next : List Str → BitsetIterator → Option (BitsetIterator × List Str)
next exclude_ids b =
    if b.done
    then some (b, [])
    else (let b' = advance (exclude_indices exclude_ids b.descs []) b in
        elim (increment_until_valid (2 ^ length b'.descs + 1) b'.req b'.descs b'.state) [
          | none ↦ none
          | some (state, found) ↦ some (finish b' (state, found))
        ])
