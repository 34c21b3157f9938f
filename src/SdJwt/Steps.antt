-- ===== src/SdJwt/Steps.antt =====
-- The steps of `discloseClaimValue` below a value: claims, array elements and the digests of an object.
use mathlib.Core.Path.{subst}
use vc_go.Prelude.{
  ℕ, ◌≤◌, ◌<◌, ◌≡◌, ◌∙◌, ap, inl, inr, true, false, List, [], ◌∷◌, ◌++◌, some, arith, Bool-cases,
  Option-cases, ◌==◌, Str, str_eq_self,
}
use vc_go.Prelude.Dicts.{Dict, lookup, keys}
use vc_go.Requirement.Sets.{has}
use vc_go.SdJwt.Types.{
  Value, Items, Fields, text, object, nil, item, entries, invalid_array_struct, Result, ok, ◌>>=◌,
  DisclosureClaim, RecursiveData,
}
use vc_go.SdJwt.Claims.{sd_key, string_array}
use vc_go.SdJwt.Disclosures.{require, text_of}
use vc_go.SdJwt.Disclose.{
  Disclosing, array_element_digest, add_nested, take_digest, store_claim, set_parsed,
  set_disclosure_claim_value, disclose_claim, disclose_element, disclose_item, disclose_items,
  add_claim, disclose_digests, disclose_sd,
}
use vc_go.SdJwt.Mentions.{Mentions, ItemMentions, in_sd, here}
use vc_go.SdJwt.Unseen.{unseen-append_one, has-append_one, has-keys}
use vc_go.SdJwt.Keeping.{
  Grows, Grows-refl, state_of, digests_state, require-fueled, require-some, text_of-text,
  string_array-fueled, add_claim-fueled, IsKept, Good, Good-Grows, Good-then, Good-after, left,
  left-Grows, Serves, add_nested-IsKept, store_claim-IsKept,
}

module _ (known : Str → Type 0) (claims : Dict DisclosureClaim)
    (closed : (e d : Str) (c : DisclosureClaim)
      → known e
      → lookup e claims ≡ some c
      → Mentions d c.value
      → known d)
    (go : Disclosing) (m : ℕ) (serves : Serves known claims go m) where
  -- The claim of a digest that was just met.
  pub set_disclosure_claim_value-Good :
      (d : Str) (c : DisclosureClaim) (s : RecursiveData)
      → IsKept known claims s
      → known d
      → lookup d s.disclosures ≡ some c
      → left known claims s < m
      → Good known claims state_of s (set_disclosure_claim_value go d c s)
  unfolding set_disclosure_claim_value store_claim set_parsed Grows
  set_disclosure_claim_value-Good d c s kept k found fuel = elim (Bool-cases c.is_value_parsed) [
    | inl done ↦ rw done (kept, λ x h. h)
    | inr fresh ↦ rw fresh (opened fresh)
  ]
    where
      present : has (keys claims) d ≡ true
      present = subst (λ ks. has ks d ≡ true) kept.same_keys (has-keys d s.disclosures found)

      opened :
          c.is_value_parsed ≡ false
          → Good known claims state_of s
              (go c.value s >>= λ (v, t). ok (v, store_claim d (set_parsed c v) t))
      opened fresh =
          Good-then known claims state_of state_of s (go c.value s)
            (λ (v, t). ok (v, store_claim d (set_parsed c v) t))
            (serves c.value s kept (λ x. closed d x c k (kept.untouched d c found fresh)) fuel)
            (λ p h grows. (store_claim-IsKept known claims d c p.0 p.1 k present h, λ x q. q))

  disclose_claim-Good :
      (elements : ℕ) (d : Str) (c : DisclosureClaim) (s : RecursiveData)
      → IsKept known claims s
      → known d
      → lookup d s.disclosures ≡ some c
      → left known claims s < m
      → Good known claims state_of s (disclose_claim go elements d c s)
  unfolding disclose_claim
  disclose_claim-Good elements d c s kept k found fuel =
      elim (Bool-cases (c.elements == elements)) [
        | inl fits ↦
            rw (fits, disclose_claim) (set_disclosure_claim_value-Good d c s kept k found fuel)
        | inr wrong ↦ rw (wrong, disclose_claim) tt
      ]

  -- A digest that is met for the first time: what follows has one key less to meet if there is a
  -- disclosure for it.
  take_digest-Good :
      {A : Type 0} (at : A → RecursiveData) (d : Str) (s : RecursiveData)
      (next : RecursiveData → Result A)
      → IsKept known claims s
      → ((t : RecursiveData)
          → IsKept known claims t
          → Grows s t
          → ((c : DisclosureClaim)
              → lookup d t.disclosures ≡ some c
              → left known claims t < left known claims s)
          → Good known claims at t (next t))
      → Good known claims at s (take_digest d s >>= next)
  unfolding take_digest add_nested Grows
  take_digest-Good at d s next kept h = elim (Bool-cases (has s.nested_sd d)) [
    | inl met ↦ rw met tt
    | inr new ↦ rw new (
        Good-Grows known claims at s (add_nested d s) (next (add_nested d s)) grows (
          h (add_nested d s) (add_nested-IsKept known claims d s kept) grows (λ c found.
            unseen-append_one (keys claims) s.nested_sd d
              (subst (λ ks. has ks d ≡ true) kept.same_keys (has-keys d s.disclosures found)) new)))
  ]
    where
      grows : Grows s (add_nested d s)
      grows = λ x met. ground (arith, has-append_one s.nested_sd d x)

  disclose_element-Good :
      (v : Value) (d : Str) (s : RecursiveData)
      → IsKept known claims s
      → known d
      → left known claims s ≤ m
      → Good known claims state_of s (disclose_element go v d s)
  unfolding disclose_element
  disclose_element-Good v d s kept k fuel =
      take_digest-Good state_of d s _ kept (λ t kept' grows less.
        elim (Option-cases (lookup d t.disclosures)) [
          | inl missing ↦ rw (missing, disclose_element) (kept', Grows-refl t)
          | inr (c, found) ↦
              rw (found, disclose_element)
                (Good-then known claims state_of state_of t (disclose_claim go 2 d c t) _
                  (disclose_claim-Good 2 d c t kept' k found (omega (arith, less c found)))
                  (λ (w, u) kept'' grows'. (kept'', Grows-refl u)))
        ])

  disclose_item-Good :
      (v : Value) (s : RecursiveData)
      → IsKept known claims s
      → ((d : Str) → array_element_digest v ≡ some (text d) → known d)
      → left known claims s ≤ m
      → Good known claims state_of s (disclose_item go v s)
  unfolding disclose_item
  disclose_item-Good v s kept k fuel = elim (Option-cases (array_element_digest v)) [
    | inl none_there ↦ rw (none_there, disclose_item) (kept, Grows-refl s)
    | inr (w, there_is) ↦
        rw (there_is, disclose_item)
          (Good-after known claims state_of s (require invalid_array_struct (text_of w)) _
            (require-fueled invalid_array_struct (text_of w))
            (λ d read.
              disclose_element-Good v d s kept
                (k d (there_is ∙ ap some (text_of-text w d (require-some _ _ read)))) fuel))
  ]

  pub disclose_items-Good :
      (vs : Items) (s : RecursiveData)
      → IsKept known claims s
      → ((d : Str) → ItemMentions d vs → known d)
      → left known claims s ≤ m
      → Good known claims state_of s (disclose_items go vs s)
  unfolding disclose_items
  disclose_items-Good nil s kept k fuel = (kept, Grows-refl s)
  disclose_items-Good (item v vs) s kept k fuel =
      Good-then known claims state_of state_of s (disclose_item go v s) _
        (disclose_item-Good v s kept (λ d h. k d (here h)) fuel)
        (λ (w, t) kept' grows.
          Good-then known claims state_of state_of t (disclose_items go vs t) _
            (disclose_items-Good vs t kept' (λ d h. k d (ItemMentions.there h))
              (omega (arith, fuel, left-Grows known claims s t grows)))
            (λ (ws, u) kept'' grows'. (kept'', Grows-refl u)))

  disclose_digests-Good :
      (ds : List Str) (new : Dict Value) (missing : List Str) (s : RecursiveData)
      → IsKept known claims s
      → ((d : Str) → has ds d ≡ true → known d)
      → left known claims s ≤ m
      → Good known claims digests_state s (disclose_digests go ds new missing s)
  unfolding disclose_digests has
  disclose_digests-Good [] new missing s kept k fuel = (kept, Grows-refl s)
  disclose_digests-Good (d ∷ ds) new missing s kept k fuel =
      take_digest-Good digests_state d s _ kept (λ t kept' grows less.
        let rest : (x : Str) → has ds x ≡ true → known x = λ x h. k x (ground arith) in
        let left_t = left-Grows known claims s t grows in
        elim (Option-cases (lookup d t.disclosures)) [
          | inl unopened ↦
              rw (unopened, disclose_digests)
                (disclose_digests-Good ds new (missing ++ d ∷ []) t kept' rest (omega arith))
          | inr (c, found) ↦
              rw (found, disclose_digests)
                (Good-then known claims state_of digests_state t (disclose_claim go 3 d c t) _
                  (disclose_claim-Good 3 d c t kept' (k d (ground (arith, str_eq_self d))) found
                    (omega (arith, less c found)))
                  (λ (w, u) kept'' grows'.
                    Good-after known claims digests_state u (add_claim go c.name w new) _
                      (add_claim-fueled go c.name w new)
                      (λ added _.
                        disclose_digests-Good ds added missing u kept'' rest
                          (omega (arith, left-Grows known claims t u grows')))))
        ])

  pub disclose_sd-Good :
      (fs : Fields) (s : RecursiveData)
      → IsKept known claims s
      → ((d : Str) → Mentions d (object fs) → known d)
      → left known claims s ≤ m
      → Good known claims state_of s (disclose_sd go (entries fs) s)
  unfolding disclose_sd
  disclose_sd-Good fs s kept k fuel = elim (Option-cases (lookup sd_key (entries fs))) [
    | inl unlisted ↦ rw (unlisted, disclose_sd) (kept, Grows-refl s)
    | inr (v, found) ↦
        rw (found, disclose_sd)
          (Good-after known claims state_of s (string_array v) _ (string_array-fueled v) (λ ds read.
            Good-then known claims digests_state state_of s (disclose_digests go ds [] [] s) _
              (disclose_digests-Good ds [] [] s kept (λ d h. k d (in_sd v ds found read h)) fuel)
              (λ (new, missing, t) kept' grows. (kept', Grows-refl t))))
  ]
