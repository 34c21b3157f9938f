-- ===== src/Presexch/Answer.antt =====
-- `applyRequirement` as a whole: what its answer says of the presentation definition.
use vc_go.Prelude.{
  ◌+◌, ◌^◌, ◌≡◌, refl, ◌⊎◌, inl, inr, false, List, [], map, some, arith, length, Str,
}
use vc_go.Prelude.Dicts.{Dict, lookup}
use vc_go.Requirement.Sets.{has}
use vc_go.Requirement.Iterator.{BitsetIterator, new_bitset_iterator}
use vc_go.Requirement.Masks.{pow_two-pos}
use vc_go.Requirement.Positions.{NoDup}
use vc_go.Presexch.Requirements.{InputDescriptor, Requirement, to_logic, get_all_descriptors}
use vc_go.Presexch.Apply.{DescriptorMatch, solve, apply_requirement}
use vc_go.Presexch.History.{IsSound, start}
use vc_go.Presexch.Ends.{AllKnown}
use vc_go.Presexch.Solution.{Solved}
use vc_go.Presexch.Complete.{solve-Solved}
use vc_go.Presexch.Keyed.{get_all_descriptors-IsKeyed}

new_bitset_iterator_state :
    {D : Type 0} (r : Requirement D) (ids : List Str) {b : BitsetIterator}
    → new_bitset_iterator (to_logic r) ids ≡ some b
    → (b.req ≡ to_logic r) × (b.state ≡ 0) × (b.done ≡ false)
unfolding new_bitset_iterator
new_bitset_iterator_state r ids h = ground arith

pub IsSound-start :
    {E D C F : Type 0} (evaluate : F → InputDescriptor D → E ⊎ (DescriptorMatch C × F))
    (descs : Dict (InputDescriptor D)) (framed : F)
    → IsSound evaluate descs framed []
        (record { evaluated = []; matches = []; framed_creds = framed })
unfolding lookup has
IsSound-start evaluate descs framed = record {
  run = start;
  untried = λ id h. refl;
  matched = λ id m h. cc;
  refused = λ id h e. cc;
}

apply_requirement-solve :
    {E D C F : Type 0} (evaluate : F → InputDescriptor D → E ⊎ (DescriptorMatch C × F)) (framed : F)
    (r : Requirement D) (input_descriptors : List (InputDescriptor D)) (format : Str)
    (b : BitsetIterator)
    → new_bitset_iterator (to_logic r) (map (λ d. d.id) input_descriptors) ≡ some b
    → apply_requirement (inr framed) evaluate r input_descriptors format
      ≡ solve evaluate
          (get_all_descriptors r)
          (2 ^ length b.descs + 1)
          b
          (record { evaluated = []; matches = []; framed_creds = framed })
          []
          format
unfolding apply_requirement
apply_requirement-solve evaluate framed r input_descriptors format b built =
    rw (built, apply_requirement)

-- `applyRequirement` on framed credentials, where the iterator over the definition's descriptors has
-- each of them once and the requirement's map knows them: it always ends, without a panic, and what it
-- answers is what a sequence of evaluations says, each of another descriptor of the requirement and on
-- the credentials as the one before has left them, the first on the framed ones. A result comes with the
-- credentials as the whole sequence leaves them, and it is a choice of descriptors that satisfies the
-- requirement, with the credentials that the evaluation of each has found, at least one for each, and no
-- others. An error is one of the filters after such a sequence. With `ErrNoCredentials`, no choice that
-- satisfies the requirement is free of descriptors for which their evaluation in the sequence has found
-- no credential.
pub apply_requirement-Solved :
    {E D C F : Type 0} (evaluate : F → InputDescriptor D → E ⊎ (DescriptorMatch C × F)) (framed : F)
    (r : Requirement D) (input_descriptors : List (InputDescriptor D)) (format : Str)
    (b : BitsetIterator)
    → new_bitset_iterator (to_logic r) (map (λ d. d.id) input_descriptors) ≡ some b
    → NoDup b.descs
    → AllKnown evaluate (get_all_descriptors r) framed b.descs
    → Solved evaluate
        (get_all_descriptors r)
        framed
        []
        (to_logic r)
        b
        (apply_requirement (inr framed) evaluate r input_descriptors format)
apply_requirement-Solved evaluate framed r input_descriptors format b built nodup known =
    let (same, at_start, live) =
      new_bitset_iterator_state r (map (λ d. d.id) input_descriptors) built in
    rw (apply_requirement-solve evaluate framed r input_descriptors format b built) (
      solve-Solved evaluate (get_all_descriptors r) framed (get_all_descriptors-IsKeyed r)
        (to_logic r) (2 ^ length b.descs + 1) format [] b
        (record { evaluated = []; matches = []; framed_creds = framed }) [] same
        (record {
          live = record { running = live; in_range = rw at_start (pow_two-pos (length b.descs)) };
          nodup = nodup;
          known = known;
          sound = IsSound-start evaluate (get_all_descriptors r) framed;
          excludes = inl refl;
        })
        (rw at_start (omega arith)))
