-- ===== src/Requirement/Ahead.antt =====
-- The choices that are still to come, across one call of `Next` that excludes at most one descriptor
-- of the solution before.
use native.Mathlib.Nat.{zero-add}
use vc_go.Prelude.{
  ℕ, ◌+◌, ◌-◌, ◌∙◌, ◌↔◌, ◌^◌, ◌≤◌, ◌<◌, ◌≡◌, refl, sym, ap, ◌≢◌, inl, inr, true, false, List, [],
  ◌∷◌, arith, length, Bool-cases, Str, dec_lt,
}
use vc_go.Requirement.Sets.{has}
use vc_go.Requirement.Iterator.{
  BitsetIterator, bit, has_index, exclude_indices, largest_index, exclude_descriptors,
  remove_excluded, advance,
}
use vc_go.Requirement.Masks.{chosen}
use vc_go.Requirement.Widen.{widen, narrow, Clear, widen-narrow, widen-grows}
use vc_go.Requirement.Indices.{Distinct}
use vc_go.Requirement.Search.{advanced}
use vc_go.Requirement.Removal.{
  ex_flags, exclude_descriptors-widen, exclude_descriptors-pos, widen-full,
  exclude_descriptors-in_range, exclude_descriptors-closer,
}
use vc_go.Requirement.Positions.{
  index_of, matching_indices-NoDup, index_of-lt, has-chosen, bit-index_of, Clear-flags_of, NoDup,
}

-- A choice that some mask from the iterator's state on makes.
abbrev pub AheadFrom : BitsetIterator → List Str → Type 0
AheadFrom a l = (u : ℕ) × (a.state ≤ u) × (u < 2 ^ length a.descs) × (l ≡ chosen u a.descs)

-- A choice that some mask after the iterator's state makes.
abbrev pub Ahead : BitsetIterator → List Str → Type 0
Ahead b l = (u : ℕ) × (b.state < u) × (u < 2 ^ length b.descs) × (l ≡ chosen u b.descs)

module _ (b : BitsetIterator) (nodup : NoDup b.descs) (id : Str)
    (current : has (chosen b.state b.descs) id ≡ true) where
  abbrev q : ℕ
  q = index_of id b.descs

  listed : has b.descs id ≡ true
  listed = has-chosen b.state b.descs id current

  pub exclude_indices-current : exclude_indices (id ∷ []) b.descs [] ≡ q ∷ []
  unfolding exclude_indices
  exclude_indices-current = rw (matching_indices-NoDup id 0 b.descs listed nodup, zero-add)

  largest_index-current : largest_index (q ∷ []) 0 ≡ q
  unfolding largest_index
  largest_index-current = ground arith

  current-set : bit b.state q ≡ 1
  current-set = ground (arith, bit-index_of b.state b.descs id nodup listed)

  unset : (u : ℕ) → has (chosen u b.descs) id ≡ false → bit u q ≡ 0
  unset u h = ground (arith, bit-index_of u b.descs id nodup listed)

  nonempty : (q ∷ []) ≢ []
  nonempty e = cc

  pub advanced-current : advanced (id ∷ []) b ≡ exclude_descriptors (q ∷ []) b
  unfolding advance
  advanced-current = rw exclude_indices-current

  in_range : largest_index (q ∷ []) 0 < length b.descs
  in_range = rw largest_index-current (index_of-lt id b.descs listed)

  set : bit b.state (largest_index (q ∷ []) 0) ≡ 1
  set = rw largest_index-current current-set

  distinct : Distinct (q ∷ [])
  unfolding has_index
  distinct = (refl, tt)

  widened :
      (t : ℕ)
      → (chosen t (exclude_descriptors (q ∷ []) b).descs
          ≡ chosen (widen (ex_flags (q ∷ [])) t) b.descs)
        × (((exclude_descriptors (q ∷ []) b).state ≤ t) ↔ (b.state < widen (ex_flags (q ∷ [])) t))
  widened = exclude_descriptors-widen (q ∷ []) nonempty distinct b in_range set

  full :
      widen (ex_flags (q ∷ [])) (2 ^ length (exclude_descriptors (q ∷ []) b).descs)
      ≡ 2 ^ length b.descs
  full = widen-full (q ∷ []) nonempty distinct b in_range set

  -- Excluding a descriptor of the current solution loses no later choice that does without it.
  pub Ahead-exclude :
      (l : List Str) → Ahead b l → has l id ≡ false → AheadFrom (advanced (id ∷ []) b) l
  Ahead-exclude l (u, later, bound, choice) without = rw advanced-current (
    t,
    (widened t).1.1 (rw back later),
    elim (dec_lt t e) [
      | yes p ↦ p
      | no p ↦
          let reach : e + (t - e) ≡ t = omega arith in
          absurd
            (omega (arith, full, back, rw reach at (widen-grows (ex_flags (q ∷ [])) e (t - e))))
    ],
    choice ∙ sym ((widened t).0 ∙ ap (λ m. chosen m b.descs) back),
  )
    where
      e : ℕ
      e = 2 ^ length (exclude_descriptors (q ∷ []) b).descs

      t : ℕ
      t = narrow (ex_flags (q ∷ [])) u

      clear : Clear (ex_flags (q ∷ [])) u
      clear =
          rw largest_index-current
            (Clear-flags_of q 0 q u (omega arith) (unset u (rw (← choice) without)))

      back : widen (ex_flags (q ∷ [])) t ≡ u
      back = widen-narrow (ex_flags (q ∷ [])) u clear

  -- The state after the exclusion: positive, within the masks, and closer to their end.
  pub advanced-bounds :
      b.state < 2 ^ length b.descs
      → (0 < (advanced (id ∷ []) b).state)
        × ((advanced (id ∷ []) b).state ≤ 2 ^ length (advanced (id ∷ []) b).descs)
        × (b.state + 2 ^ length (advanced (id ∷ []) b).descs
            < (advanced (id ∷ []) b).state + 2 ^ length b.descs)
  advanced-bounds h = rw advanced-current (
    exclude_descriptors-pos (q ∷ []) nonempty distinct b in_range set,
    exclude_descriptors-in_range (q ∷ []) nonempty distinct b in_range set h,
    exclude_descriptors-closer (q ∷ []) nonempty distinct b in_range set h,
  )

has-remove_excluded :
    (ex : List ℕ) (i : ℕ) (ds : List Str) (x : Str)
    → has ds x ≡ false
    → has (remove_excluded ex i ds) x ≡ false
unfolding has remove_excluded
has-remove_excluded ex i [] x h = h
has-remove_excluded ex i (d ∷ ds) x h = ground (arith, has-remove_excluded ex (i + 1) ds x)

NoDup-remove_excluded :
    (ex : List ℕ) (i : ℕ) (ds : List Str) → NoDup ds → NoDup (remove_excluded ex i ds)
unfolding remove_excluded
NoDup-remove_excluded ex i [] h = tt
NoDup-remove_excluded ex i (d ∷ ds) (new, h) = elim (Bool-cases (has_index ex i)) [
  | inl gone ↦ rw gone (NoDup-remove_excluded ex (i + 1) ds h)
  | inr stays ↦
      rw stays (has-remove_excluded ex (i + 1) ds d new, NoDup-remove_excluded ex (i + 1) ds h)
]

-- Whatever `Next` is told to exclude, descriptors that stand once stand once still.
pub advanced-NoDup :
    (exclude_ids : List Str) (b : BitsetIterator)
    → NoDup b.descs
    → NoDup (advanced exclude_ids b).descs
unfolding advance exclude_descriptors
advanced-NoDup exclude_ids b h = advance-NoDup (exclude_indices exclude_ids b.descs [])
  where
    advance-NoDup : (is : List ℕ) → NoDup (advance is b).descs
    advance-NoDup [] = h
    advance-NoDup (i ∷ is) = NoDup-remove_excluded (i ∷ is) 0 b.descs h
