-- ===== src/SdJwt/Traversal.antt =====
-- A traversal by `discloseClaimValue` keeps its state sound, and its fuel lasts: a digest is met once,
-- so each disclosure that is opened leaves one key less to meet.
use vc_go.Prelude.{ℕ, zero, suc, ◌≤◌, ◌≡◌, inl, inr, false, some, arith, Bool-cases, Str, str_eq}
use vc_go.Prelude.Dicts.{Dict, lookup}
use vc_go.SdJwt.Types.{
  Value, Fields, null, number, text, array, object, end, field, entries, out_of_fuel,
  DisclosureClaim, RecursiveData,
}
use vc_go.SdJwt.Claims.{sd_key}
use vc_go.SdJwt.Disclose.{
  Disclosing, disclose_items, disclose_sd, add_value, is_skipped, disclose_value, disclose_fields,
  disclose,
}
use vc_go.SdJwt.Mentions.{Mentions, FieldMentions, in_array, in_field}
use vc_go.SdJwt.Keeping.{
  Grows-refl, state_of, add_value-fueled, IsKept, Good, Good-then, Good-after, left, left-Grows,
  Serves,
}
use vc_go.SdJwt.Steps.{disclose_items-Good, disclose_sd-Good}

module _ (known : Str → Type 0) (claims : Dict DisclosureClaim)
    (closed : (e d : Str) (c : DisclosureClaim)
      → known e
      → lookup e claims ≡ some c
      → Mentions d c.value
      → known d)
    (go : Disclosing) (m : ℕ) (serves : Serves known claims go m) where
  not_skipped : (k : Str) (s : RecursiveData) → is_skipped go k s ≡ false → str_eq k sd_key ≡ false
  unfolding is_skipped
  not_skipped k s h = ground arith

  mutual
    unfolding disclose_value

    disclose_value-Good :
        (v : Value) (s : RecursiveData)
        → IsKept known claims s
        → ((d : Str) → Mentions d v → known d)
        → left known claims s ≤ m
        → Good known claims state_of s (disclose_value go v s)
    disclose_value-Good null s kept k fuel = (kept, Grows-refl s)
    disclose_value-Good (number n) s kept k fuel = (kept, Grows-refl s)
    disclose_value-Good (text t) s kept k fuel = (kept, Grows-refl s)
    disclose_value-Good (array vs) s kept k fuel =
        Good-then known claims state_of state_of s (disclose_items go vs s) _
          (disclose_items-Good known claims closed go m serves vs s kept (λ d h. k d (in_array h))
            fuel)
          (λ (ws, t) kept' grows. (kept', Grows-refl t))
    disclose_value-Good (object fs) s kept k fuel =
        Good-then known claims state_of state_of s (disclose_sd go (entries fs) s) _
          (disclose_sd-Good known claims closed go m serves fs s kept k fuel)
          (λ (new, t) kept' grows.
            Good-then known claims state_of state_of t (disclose_fields go fs new t) _
              (disclose_fields-Good fs new t kept' (λ d h. k d (in_field h))
                (omega (arith, left-Grows known claims s t grows)))
              (λ (all, u) kept'' grows'. (kept'', Grows-refl u)))

    disclose_fields-Good :
        (fs : Fields) (new : Dict Value) (s : RecursiveData)
        → IsKept known claims s
        → ((d : Str) → FieldMentions d fs → known d)
        → left known claims s ≤ m
        → Good known claims state_of s (disclose_fields go fs new s)
    disclose_fields-Good end new s kept k fuel = (kept, Grows-refl s)
    disclose_fields-Good (field key v fs) new s kept k fuel =
        elim (Bool-cases (is_skipped go key s)) [
          | inl skipped ↦
              rw (skipped, disclose_fields)
                (disclose_fields-Good fs new s kept (λ d h. k d (FieldMentions.there h)) fuel)
          | inr read ↦
              rw (read, disclose_fields)
                (Good-then known claims state_of state_of s (disclose_value go v s) _
                  (disclose_value-Good v s kept
                    (λ d h. k d (FieldMentions.here (not_skipped key s read) h)) fuel)
                  (λ (w, t) kept' grows.
                    Good-after known claims state_of t (add_value go key w new) _
                      (add_value-fueled go key w new)
                      (λ added _.
                        disclose_fields-Good fs added t kept' (λ d h. k d (FieldMentions.there h))
                          (omega (arith, left-Grows known claims s t grows)))))
        ]

-- With fuel for the keys that are left known claims, disclosing a value whose digests are known keeps the
-- traversal and never ends for lack of fuel.
pub disclose-Good :
    (known : Str → Type 0) (claims : Dict DisclosureClaim)
    (closed : (e d : Str) (c : DisclosureClaim)
      → known e
      → lookup e claims ≡ some c
      → Mentions d c.value
      → known d)
    (fuel : ℕ) (v : Value) (s : RecursiveData)
    → IsKept known claims s
    → ((d : Str) → Mentions d v → known d)
    → left known claims s ≤ fuel
    → Good known claims state_of s (disclose fuel v s)
unfolding disclose
disclose-Good known claims closed zero v s kept k enough =
    disclose_value-Good known claims closed (λ w t. out_of_fuel) 0
      (λ w t _ _ less. absurd (omega arith)) v s kept k enough
disclose-Good known claims closed (suc fuel) v s kept k enough =
    disclose_value-Good known claims closed (disclose fuel) (suc fuel)
      (λ w t kept' k' less. disclose-Good known claims closed fuel w t kept' k' (omega arith)) v s
      kept k enough
