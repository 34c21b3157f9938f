-- ===== src/Presexch/Apply.antt =====
-- presexch/definition.go: `applyRequirement`, the search for descriptors that credentials can fill.
use vc_go.Prelude.{
  ℕ, zero, suc, ◌+◌, ◌^◌, Bool, true, false, List, [], ◌∷◌, map, none, some, if◌then◌else◌, length,
  Str, ◌⊎◌, inl, inr,
}
use vc_go.Prelude.Dicts.{Dict, lookup, insert}
use vc_go.Requirement.Sets.{StringSet, has, add}
use vc_go.Requirement.Iterator.{BitsetIterator, new_bitset_iterator, next}
use vc_go.Presexch.Requirements.{InputDescriptor, Requirement, to_logic, get_all_descriptors}

-- How a call ends: with a value, an error of a credential filter, `ErrNoCredentials`, or a panic.
-- `out_of_fuel` belongs to the model only.
pub data Outcome (E A : Type 0) : Type 0 where
  ok : A → Outcome E A
  failed : E → Outcome E A
  no_credentials : Outcome E A
  panic : Outcome E A
  out_of_fuel : Outcome E A

infixl 5 ◌>>=◌
abbrev pub ◌>>=◌ : {E A B : Type 0} → Outcome E A → (A → Outcome E B) → Outcome E B
out_of_fuel >>= next = out_of_fuel
panic >>= next = panic
no_credentials >>= next = no_credentials
failed cause >>= next = failed cause
ok value >>= next = next value

-- `descriptorMatch`: the format and the credentials of a descriptor.
pub record DescriptorMatch (C : Type 0) : Type 0 where
  pub format : Str
  pub creds : List C

-- `if format != "" { vpFormat = format }`
unfoldable pub pick_format : Str → Str → Str
pick_format [] vp_format = vp_format
pick_format (c ∷ cs) vp_format = c ∷ cs

-- What the loop carries: `evaluated`, `descriptorMatches`, and what the framed credentials hold, which
-- `limitDisclosure` changes: it sets the disclosures of an SD-JWT credential in place.
pub record Progress (F C : Type 0) : Type 0 where
  pub evaluated : StringSet
  pub matches : Dict (DescriptorMatch C)
  pub framed_creds : F

-- How a pass over one solution ends: `solved` and `excludeDescriptors`.
pub record Pass (F C : Type 0) : Type 0 where
  pub progress : Progress F C
  pub solved : Bool
  pub exclude : List Str

-- `evaluate` is `filterCredentialsThatMatchDescriptor` and `limitDisclosure` on the framed
-- credentials as they stand, and returns them as it leaves them; `C` is a credential of the result,
-- which may be one of the framed ones. `descs` is what `getAllDescriptors` returns.
module _ {E D C F : Type 0} (evaluate : F → InputDescriptor D → E ⊎ (DescriptorMatch C × F))
    (descs : Dict (InputDescriptor D)) where
  -- A descriptor that is not in the map is a nil pointer, which the filter reads.
  unfoldable pub evaluate_id : F → Str → Outcome E (Str × DescriptorMatch C × F)
  evaluate_id framed id = elim (lookup id descs) [
    | none ↦ panic
    | some d ↦ elim (evaluate framed d) [ inl e ↦ failed e | inr r ↦ ok (d.id, r.0, r.1) ]
  ]

  unfoldable pub record_match :
      StringSet → Dict (DescriptorMatch C) → Str × DescriptorMatch C × F → Progress F C
  record_match evaluated matches (key, m, framed) = record {
    evaluated = evaluated;
    matches = insert key m matches;
    framed_creds = framed;
  }

  unfoldable pub unsolved : Progress F C → List Str → Outcome E (Pass F C)
  unsolved p exclude = ok (record { progress = p; solved = false; exclude = exclude })

  -- The inner loop, over a solution.
  unfoldable pub scan : List Str → Progress F C → Outcome E (Pass F C)
  scan [] p = ok (record { progress = p; solved = true; exclude = [] })
  scan (id ∷ sol) p =
      if has p.evaluated id
      then elim (lookup id p.matches) [ none ↦ unsolved p [] | some _ ↦ scan sol p ]
      else (evaluate_id p.framed_creds id >>= λ r. elim (r.1.creds) [
        | [] ↦ unsolved (record p { evaluated = add p.evaluated id; framed_creds = r.2 }) (id ∷ [])
        | c ∷ cs ↦ scan sol (record_match (add p.evaluated id) p.matches r)
      ])

  -- The result map and the format, which the last descriptor that names one decides. A descriptor
  -- without a match is a nil pointer.
  unfoldable pub collect_result :
      List Str → Dict (DescriptorMatch C) → Str → Dict (List C) → Outcome E (Str × Dict (List C))
  collect_result [] matches vp_format result = ok (vp_format, result)
  collect_result (id ∷ sol) matches vp_format result = elim (lookup id matches) [
    | none ↦ panic
    | some m ↦
        collect_result sol matches (pick_format (m.format) vp_format) (insert id m.creds result)
  ]

  -- The outer loop, with the result of `iterator.Next` for the round. A result comes with the framed
  -- credentials as the search leaves them.
  unfoldable pub solve :
      ℕ → BitsetIterator → Progress F C → List Str → Str → Outcome E ((Str × Dict (List C)) × F)
  solve zero b p exclude default_format = out_of_fuel
  solve (suc fuel) b p exclude default_format = elim (next exclude b) [
    | none ↦ out_of_fuel
    | some (b', []) ↦ no_credentials
    | some (b', id ∷ sol) ↦ scan (id ∷ sol) p >>= λ pass.
        let again = solve fuel b' pass.progress pass.exclude default_format in
        if pass.solved
        then (collect_result (id ∷ sol) pass.progress.matches default_format [] >>= λ result.
            ok (result, pass.progress.framed_creds))
        else again
  ]

-- `applyRequirement`. `framed` is the result of `frameCreds`.
unfoldable pub apply_requirement :
    {E D C F : Type 0}
    → E ⊎ F
    → (F → InputDescriptor D → E ⊎ (DescriptorMatch C × F))
    → Requirement D
    → List (InputDescriptor D)
    → Str
    → Outcome E ((Str × Dict (List C)) × F)
apply_requirement framed evaluate r input_descriptors default_format =
    elim (new_bitset_iterator (to_logic r) (map (λ d. d.id) input_descriptors)) [
      | none ↦ panic
      | some b ↦ elim framed [
        | inl e ↦ failed e
        | inr f ↦
            solve evaluate (get_all_descriptors r) (2 ^ length b.descs + 1) b
              (record { evaluated = []; matches = []; framed_creds = f }) [] default_format
      ]
    ]
