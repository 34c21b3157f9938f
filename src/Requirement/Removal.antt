-- ===== src/Requirement/Removal.antt =====
-- One exclusion: the masks that come after it are those of the old list that come after the state and
-- choose nothing that is excluded.
use native.Mathlib.Nat.{zero-add, mul-zero}
use vc_go.Prelude.{
  ℕ, suc, ◌+◌, ◌-◌, ◌^◌, ◌≤◌, ◌<◌, ◌≡◌, refl, sym, ap, ◌≢◌, ◌↔◌, ◌⊎◌, inl, Bool, true, false, List,
  [], ◌∷◌, arith, length, if◌then◌else◌, ltb, dec_lt,
}
use vc_go.Requirement.Iterator.{
  BitsetIterator, bit, has_index, largest_index, exclude_state, exclude_descriptors,
}
use vc_go.Requirement.Masks.{chosen}
use vc_go.Requirement.Widen.{
  remove, widen, widen-mul, widen-grows, length-remove, kept, removed, last_set, chosen-widen,
  pow_two-add,
}
use vc_go.Requirement.Exclusion.{shifted, shifted-le_iff}
use vc_go.Requirement.Indices.{
  Distinct, Below, flags_of, length-flags_of, remove_excluded-flags, flags_of-suc, removed-flags_of,
}

-- The largest index bounds them all.
largest_index-bounds :
    (ex : List ℕ) (largest : ℕ)
    → (largest ≤ largest_index ex largest) × Below (suc (largest_index ex largest)) ex
unfolding largest_index
largest_index-bounds [] largest = (omega arith, tt)
largest_index-bounds (i ∷ ex) largest =
    let rest = largest_index-bounds ex (if ltb largest i then i else largest) in
    (ground arith, (ground arith, rest.1))

largest_index-mem :
    (ex : List ℕ) (largest : ℕ)
    → (largest_index ex largest ≡ largest) ⊎ (has_index ex (largest_index ex largest) ≡ true)
unfolding largest_index has_index
largest_index-mem [] largest = inl refl
largest_index-mem (i ∷ ex) largest =
    ground (arith, largest_index-mem ex (if ltb largest i then i else largest))

has_index-largest : (ex : List ℕ) → ex ≢ [] → has_index ex (largest_index ex 0) ≡ true
unfolding largest_index has_index
has_index-largest [] h = absurd (h refl)
has_index-largest (i ∷ ex) h = ground (arith, largest_index-mem ex (if ltb 0 i then i else 0))

-- The flags up to the largest excluded index.
abbrev pub ex_flags : List ℕ → List Bool
ex_flags ex = flags_of ex 0 (suc (largest_index ex 0))

-- The same flags without the last.
abbrev pub early_flags : List ℕ → List Bool
early_flags ex = flags_of ex 0 (largest_index ex 0)

ex_flags-last : (ex : List ℕ) → ex ≢ [] → ex_flags ex ≡ last_set (early_flags ex)
ex_flags-last ex h = rw (flags_of-suc ex 0 (largest_index ex 0), zero-add, has_index-largest ex h)

removed-last_set : (flags : List Bool) → removed (last_set flags) ≡ suc (removed flags)
unfolding removed
removed-last_set [] = refl
removed-last_set (true ∷ flags) = ap suc (removed-last_set flags)
removed-last_set (false ∷ flags) = removed-last_set flags

module _ (ex : List ℕ) (nonempty : ex ≢ []) (distinct : Distinct ex) where
  exclude_state-shifted : (s : ℕ) → exclude_state ex s ≡ shifted (early_flags ex) s
  unfolding exclude_state
  exclude_state-shifted s = rw (length-flags_of ex 0 (largest_index ex 0), ← count)
    where
      count : length ex ≡ suc (removed (early_flags ex))
      count =
          rw
            (
              ← removed-flags_of ex (suc (largest_index ex 0)) distinct
                  (largest_index-bounds ex 0).1,
              ex_flags-last ex nonempty,
            )
            (removed-last_set (early_flags ex))

  module _ (b : BitsetIterator) (in_range : largest_index ex 0 < length b.descs)
      (set : bit b.state (largest_index ex 0) ≡ 1) where
    -- After an exclusion a mask makes the choice of its widening, and it is still to come exactly
    -- when the widening comes after the state before.
    pub exclude_descriptors-widen :
        (t : ℕ)
        → (chosen t (exclude_descriptors ex b).descs ≡ chosen (widen (ex_flags ex) t) b.descs)
          × (((exclude_descriptors ex b).state ≤ t) ↔ (b.state < widen (ex_flags ex) t))
    unfolding exclude_descriptors
    exclude_descriptors-widen t = (
      rw
          (remove_excluded-flags ex 0 (suc (largest_index ex 0)) b.descs
            (rw zero-add (largest_index-bounds ex 0).1))
          (sym (
            chosen-widen (ex_flags ex) t b.descs
              (rw (length-flags_of ex 0 (suc (largest_index ex 0))) in_range))),
      rw (exclude_state-shifted b.state, ex_flags-last ex nonempty)
          (shifted-le_iff (early_flags ex) b.state
            (rw (length-flags_of ex 0 (largest_index ex 0)) set) t),
    )

    pub exclude_descriptors-pos : 0 < (exclude_descriptors ex b).state
    exclude_descriptors-pos = elim (dec_lt 0 (exclude_descriptors ex b).state) [
      | yes p ↦ p
      | no zero_state ↦
          absurd (omega (arith, widen-zero, (exclude_descriptors-widen 0).1.0 (omega arith)))
    ]
      where
        widen-zero : widen (ex_flags ex) 0 ≡ 0
        widen-zero = omega (arith, rw mul-zero at (widen-mul (ex_flags ex) 0))

    -- The number of masks over what is kept widens to the number of masks before.
    pub widen-full :
        widen (ex_flags ex) (2 ^ length (exclude_descriptors ex b).descs) ≡ 2 ^ length b.descs
    unfolding exclude_descriptors
    widen-full = rw (kept_length, pow_two-add, widen-mul, ← pow_two-add, whole)
      where
        m : ℕ
        m = length (ex_flags ex)

        m-le : m ≤ length b.descs
        m-le = rw (length-flags_of ex 0 (suc (largest_index ex 0))) in_range

        descs_removed : (exclude_descriptors ex b).descs ≡ remove (ex_flags ex) b.descs
        descs_removed =
            remove_excluded-flags ex 0 (suc (largest_index ex 0)) b.descs
              (rw zero-add (largest_index-bounds ex 0).1)

        kept_length :
            length (exclude_descriptors ex b).descs ≡ kept (ex_flags ex) + (length b.descs - m)
        kept_length =
            rw descs_removed (omega (arith, length-remove (ex_flags ex) b.descs m-le, m-le))

        whole : m + (length b.descs - m) ≡ length b.descs
        whole = omega (arith, m-le)

    -- An exclusion leaves the state within the masks over what is kept.
    pub exclude_descriptors-in_range :
        b.state < 2 ^ length b.descs
        → (exclude_descriptors ex b).state ≤ 2 ^ length (exclude_descriptors ex b).descs
    exclude_descriptors-in_range h =
        (exclude_descriptors-widen (2 ^ length (exclude_descriptors ex b).descs)).1.1
          (rw widen-full h)

    -- An exclusion brings the state closer to the end.
    pub exclude_descriptors-closer :
        b.state < 2 ^ length b.descs
        → b.state + 2 ^ length (exclude_descriptors ex b).descs
          < (exclude_descriptors ex b).state + 2 ^ length b.descs
    exclude_descriptors-closer h = omega (
      arith,
      widen-full,
      exclude_descriptors-in_range h,
      (exclude_descriptors-widen s').1.0 (omega arith),
      rw reach at (widen-grows (ex_flags ex) s' (e - s')),
    )
      where
        s' : ℕ
        s' = (exclude_descriptors ex b).state

        e : ℕ
        e = 2 ^ length (exclude_descriptors ex b).descs

        reach : s' + (e - s') ≡ e
        reach = omega (arith, exclude_descriptors-in_range h)
