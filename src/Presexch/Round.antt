-- ===== src/Presexch/Round.antt =====
-- One round of the outer loop of `applyRequirement`: its invariant across a call of `Next`.
use vc_go.Prelude.{
  ℕ, ◌+◌, ◌/◌, ◌^◌, ◌≤◌, ◌<◌, ◌≡◌, refl, ◌⊎◌, inl, inr, true, false, List, [], ◌∷◌, arith,
  Bool-cases, length, Str,
}
use vc_go.Prelude.Dicts.{Dict}
use vc_go.Requirement.Sets.{has}
use vc_go.Requirement.Iterator.{
  BitsetIterator, remove_excluded, exclude_indices, exclude_descriptors, advance,
}
use vc_go.Requirement.Masks.{chosen}
use vc_go.Requirement.Search.{advanced}
use vc_go.Requirement.Enumeration.{IsLive}
use vc_go.Requirement.Positions.{NoDup}
use vc_go.Requirement.Ahead.{AheadFrom, Ahead, Ahead-exclude, advanced-bounds}
use vc_go.Presexch.Requirements.{InputDescriptor}
use vc_go.Presexch.Apply.{DescriptorMatch, Progress}
use vc_go.Presexch.History.{Unfillable, Unfillable-later, Grows, IsSound}
use vc_go.Presexch.Ends.{AllKnown}

module _ {C : Type 0} where
  -- The evaluations of the search find credentials for each descriptor of the list that it evaluates.
  abbrev pub NoneRefused : Dict (DescriptorMatch C) → List Str → Type 0
  NoneRefused log l = (id : Str) → has l id ≡ true → ¬ Unfillable log id

  pub NoneRefused-before :
      (log later : Dict (DescriptorMatch C)) (l : List Str)
      → Grows log later
      → NoneRefused later l
      → NoneRefused log l
  NoneRefused-before log later l grows filled id listed u =
      filled id listed (Unfillable-later log later id grows u)

  pub unfilled :
      (log : Dict (DescriptorMatch C)) (id : Str) (l : List Str)
      → Unfillable log id
      → NoneRefused log l
      → has l id ≡ false
  unfilled log id l u filled = elim (Bool-cases (has l id)) [
    | inl listed ↦ absurd (filled id listed u)
    | inr other ↦ other
  ]

module _ {E D C F : Type 0} (evaluate : F → InputDescriptor D → E ⊎ (DescriptorMatch C × F))
    (descs : Dict (InputDescriptor D)) (framed : F) where
  pub AllKnown-chosen :
      (s : ℕ) (ds : List Str)
      → AllKnown evaluate descs framed ds
      → AllKnown evaluate descs framed (chosen s ds)
  unfolding chosen
  AllKnown-chosen s [] h = tt
  AllKnown-chosen s (d ∷ ds) (h, k) = ground (arith, AllKnown-chosen (s / 2) ds k)

  AllKnown-remove_excluded :
      (ex : List ℕ) (i : ℕ) (ds : List Str)
      → AllKnown evaluate descs framed ds
      → AllKnown evaluate descs framed (remove_excluded ex i ds)
  unfolding remove_excluded
  AllKnown-remove_excluded ex i [] h = tt
  AllKnown-remove_excluded ex i (d ∷ ds) (h, k) =
      ground (arith, AllKnown-remove_excluded ex (i + 1) ds k)

  pub AllKnown-advanced :
      (exclude : List Str) (b : BitsetIterator)
      → AllKnown evaluate descs framed b.descs
      → AllKnown evaluate descs framed (advanced exclude b).descs
  unfolding advance exclude_descriptors
  AllKnown-advanced exclude b h = go (exclude_indices exclude b.descs [])
    where
      go : (is : List ℕ) → AllKnown evaluate descs framed (advance is b).descs
      go [] = h
      go (i ∷ is) = AllKnown-remove_excluded (i ∷ is) 0 b.descs h

  -- What is excluded next: nothing, or a descriptor of the last solution that nothing has filled.
  abbrev pub Excludes : Dict (DescriptorMatch C) → BitsetIterator → List Str → Type 0
  Excludes log b exclude =
      (exclude ≡ [])
      ⊎ ((id : Str) × (exclude ≡ id ∷ [])
          × (has (chosen b.state b.descs) id ≡ true)
          × Unfillable log id)

  pub record InLoop (log : Dict (DescriptorMatch C)) (b : BitsetIterator) (p : Progress F C)
      (exclude : List Str) : Type 0 where
    pub live : IsLive b
    pub nodup : NoDup b.descs
    pub known : AllKnown evaluate descs framed b.descs
    pub sound : IsSound evaluate descs framed log p
    pub excludes : Excludes log b exclude

  -- A choice that is still to come, none of which the search finds unfilled, stays so across the
  -- exclusion, and the end comes closer.
  pub record IsAdvance (log : Dict (DescriptorMatch C)) (b a : BitsetIterator) : Type 0 where
    pub positive : 0 < a.state
    pub in_range : a.state ≤ 2 ^ length a.descs
    pub closer : b.state + 2 ^ length a.descs < a.state + 2 ^ length b.descs
    pub keeps : (l : List Str) → Ahead b l → NoneRefused log l → AheadFrom a l
    pub same_req : a.req ≡ b.req

  advance_req : (is : List ℕ) (b : BitsetIterator) → (advance is b).req ≡ b.req
  unfolding advance exclude_descriptors
  advance_req [] b = refl
  advance_req (i ∷ is) b = refl

  plain-IsAdvance :
      (log : Dict (DescriptorMatch C)) (b : BitsetIterator)
      → IsLive b
      → IsAdvance log b (advanced [] b)
  unfolding advance exclude_indices
  plain-IsAdvance log b live = record {
    positive = omega arith;
    in_range = omega (arith, live.in_range);
    closer = omega arith;
    keeps = λ l (u, later, bound, choice) filled. (u, omega arith, bound, choice);
    same_req = refl;
  }

  pub advanced-IsAdvance :
      (log : Dict (DescriptorMatch C)) (b : BitsetIterator) (p : Progress F C) (exclude : List Str)
      → InLoop log b p exclude
      → IsAdvance log b (advanced exclude b)
  advanced-IsAdvance log b p exclude inv = elim inv.excludes [
    | inl nothing ↦ rw nothing (plain-IsAdvance log b inv.live)
    | inr (id, e, listed, u) ↦
        let (pos, range, closer) = advanced-bounds b inv.nodup id listed inv.live.in_range in
        rw e (record {
          positive = pos;
          in_range = range;
          closer = closer;
          keeps = λ l ahead filled.
              Ahead-exclude b inv.nodup id listed l ahead (unfilled log id l u filled);
          same_req = advance_req (exclude_indices (id ∷ []) b.descs []) b;
        })
  ]
