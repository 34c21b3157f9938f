-- ===== src/Presexch/Keyed.antt =====
-- `getAllDescriptors` keys each descriptor by its own identifier.
use vc_go.Prelude.{◌≡◌, refl, inl, inr, List, [], ◌∷◌, arith, Bool-cases, Str, str_eq, str_eq_iff}
use vc_go.Prelude.Tests.{Option-cases}
use vc_go.Prelude.Dicts.{Dict, lookup, insert}
use vc_go.Presexch.Requirements.{
  InputDescriptor, Requirement, req, Requirements, req_nil, req_cons, add_descriptors,
  descriptor_id_map, add_missing, get_all_descriptors, merge_nested,
}
use vc_go.Presexch.Scan.{IsKeyed}

module _ {D : Type 0} where
  -- Every entry of the association list has its descriptor's identifier for a key.
  abbrev Entries : Dict (InputDescriptor D) → Type 0
  Entries [] = Unit
  Entries ((k, d) ∷ m) = (d.id ≡ k) × Entries m

  Entries-IsKeyed : (m : Dict (InputDescriptor D)) → Entries m → IsKeyed m
  unfolding lookup
  Entries-IsKeyed [] h id d e = cc
  Entries-IsKeyed ((k, x) ∷ m) (h, t) id d e = elim (Bool-cases (str_eq k id)) [
    | inl here ↦ ground (arith, str_eq_iff k id)
    | inr other ↦ Entries-IsKeyed m t id d (rw other at e)
  ]

  Entries-insert :
      (d : InputDescriptor D) (k : Str) (m : Dict (InputDescriptor D))
      → d.id ≡ k
      → Entries m
      → Entries (insert k d m)
  unfolding insert
  Entries-insert d k [] e h = (e, tt)
  Entries-insert d k ((j, x) ∷ m) e (h, t) = ground (arith, Entries-insert d k m)

  Entries-add_descriptors :
      (ds : List (InputDescriptor D)) (m : Dict (InputDescriptor D))
      → Entries m
      → Entries (add_descriptors ds m)
  unfolding add_descriptors
  Entries-add_descriptors [] m h = h
  Entries-add_descriptors (d ∷ ds) m h =
      Entries-add_descriptors ds (insert d.id d m) (Entries-insert d d.id m refl h)

  Entries-add_missing :
      (out child : Dict (InputDescriptor D))
      → Entries out
      → Entries child
      → Entries (add_missing out child)
  unfolding add_missing
  Entries-add_missing out [] h c = h
  Entries-add_missing out ((k, d) ∷ child) h (e, c) = elim (Option-cases (lookup k out)) [
    | inl missing ↦
        rw missing (Entries-add_missing (insert k d out) child (Entries-insert d k out e h) c)
    | inr (x, there) ↦ rw there (Entries-add_missing out child h c)
  ]

mutual
  unfolding get_all_descriptors merge_nested descriptor_id_map

  Entries-all : {D : Type 0} (r : Requirement D) → Entries (get_all_descriptors r)
  Entries-all (req name purpose rule count min max (d ∷ ds) nested) =
      Entries-add_descriptors (d ∷ ds) [] tt
  Entries-all (req name purpose rule count min max [] nested) = Entries-nested nested [] tt

  Entries-nested :
      {D : Type 0} (rs : Requirements D) (out : Dict (InputDescriptor D))
      → Entries out
      → Entries (merge_nested rs out)
  Entries-nested req_nil out h = h
  Entries-nested (req_cons r rs) out h =
      Entries-nested rs _ (Entries-add_missing out (get_all_descriptors r) h (Entries-all r))

-- `getAllDescriptors` keys every descriptor by its own identifier.
pub get_all_descriptors-IsKeyed : {D : Type 0} (r : Requirement D) → IsKeyed (get_all_descriptors r)
get_all_descriptors-IsKeyed r = Entries-IsKeyed (get_all_descriptors r) (Entries-all r)
