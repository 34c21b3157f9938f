-- ===== src/SdJwt/Total.antt =====
-- The traversals of sdjwt/common end.
use mathlib.Core.Path.{subst}
use vc_go.Prelude.{
  suc, ◌≡◌, refl, ◌≢◌, inl, inr, Bool, true, false, List, [], ◌∷◌, some, arith, Option-cases,
  length, Str,
}
use vc_go.Prelude.Dicts.{Dict, lookup, insert, keys}
use vc_go.SdJwt.Types.{
  unexpected_output, base64_failed, json_failed, name_not_text, Value, Fields, object, Result, ok,
  err, out_of_fuel, ◌>>=◌, Hash, DisclosureClaim, RecursiveData,
}
use vc_go.SdJwt.Claims.{get_crypto_hash_from_claims, get_sd_alg, parse_crypto_hash_alg}
use vc_go.SdJwt.Disclosures.{
  Codec, require, text_of, salt_of, get_hash, enrich, enrich_with_sd_element, get_disclosure_claim,
  collect_claims, claims_by_digest,
}
use vc_go.SdJwt.Disclose.{set_disclosure_claim_value, disclose_claim_value}
use vc_go.SdJwt.Verification.{
  Jwt, copy_map, check_parsed, parse_claims, claims_map, traversal, verify_disclosures_in_sdjwt,
  get_disclosure_claims, get_disclosed_claims,
}
use vc_go.SdJwt.Keeping.{IsKept, Good, state_of, require-fueled}
use vc_go.SdJwt.Steps.{set_disclosure_claim_value-Good}
use vc_go.SdJwt.Covered.{disclose_claim_value-Good, left-le}

-- No knowledge of digests is asked for.
Any : Str → Type 0
Any d = Unit

Good-fueled :
    {A : Type 0} (claims : Dict DisclosureClaim) (at : A → RecursiveData) (s : RecursiveData)
    (r : Result A)
    → Good Any claims at s r
    → r ≢ out_of_fuel
Good-fueled claims at s (ok a) g = λ e. cc
Good-fueled claims at s (err cause) g = λ e. cc
Good-fueled claims at s out_of_fuel g = λ e. g

then-fueled :
    {A B : Type 0} (first : Result A) (next : A → Result B)
    → first ≢ out_of_fuel
    → ((a : A) → first ≡ ok a → next a ≢ out_of_fuel)
    → (first >>= next) ≢ out_of_fuel
then-fueled (ok a) next f h = h a refl
then-fueled (err cause) next f h = λ e. cc
then-fueled out_of_fuel next f h = absurd (f refl)

Any-IsKept :
    (claims : Dict DisclosureClaim) (cleanup : Bool) → IsKept Any claims (traversal claims cleanup)
unfolding Any
Any-IsKept claims cleanup = record {
  same_keys = refl;
  untouched = λ k c found fresh. found;
  parsed = λ k c found done. tt;
}

get_sd_alg-fueled : (claims : Fields) → get_sd_alg claims ≢ out_of_fuel
unfolding get_sd_alg
get_sd_alg-fueled claims = ground arith

parse_crypto_hash_alg-fueled :
    (upper : Str → Str) (alg : Str) → parse_crypto_hash_alg upper alg ≢ out_of_fuel
unfolding parse_crypto_hash_alg
parse_crypto_hash_alg-fueled upper alg = ground arith

get_crypto_hash_from_claims-fueled :
    (upper : Str → Str) (claims : Fields) → get_crypto_hash_from_claims upper claims ≢ out_of_fuel
unfolding get_crypto_hash_from_claims
get_crypto_hash_from_claims-fueled upper claims =
    then-fueled (get_sd_alg claims) _ (get_sd_alg-fueled claims)
      (λ alg _. parse_crypto_hash_alg-fueled upper alg)

enrich-fueled : (c : DisclosureClaim) (vs : List Value) → enrich c vs ≢ out_of_fuel
unfolding enrich enrich_with_sd_element
enrich-fueled c [] = λ e. cc
enrich-fueled c (x ∷ []) = λ e. cc
enrich-fueled c (x ∷ v ∷ []) = λ e. cc
enrich-fueled c (x ∷ name ∷ v ∷ []) =
    then-fueled (require name_not_text (text_of name)) _
      (require-fueled name_not_text (text_of name)) (λ n _ e. cc)
enrich-fueled c (x ∷ y ∷ z ∷ w ∷ vs) = λ e. cc

salt_of-fueled : (codec : Codec) (vs : List Value) → salt_of codec vs ≢ out_of_fuel
unfolding salt_of
salt_of-fueled codec [] = λ e. cc
salt_of-fueled codec (x ∷ []) = λ e. cc
salt_of-fueled codec (x ∷ y ∷ vs) = require-fueled _ (text_of x)

get_disclosure_claim-fueled :
    (codec : Codec) (x : Str) (hash : Hash) → get_disclosure_claim codec x hash ≢ out_of_fuel
unfolding get_disclosure_claim get_hash
get_disclosure_claim-fueled codec x hash =
    then-fueled (require base64_failed (codec.decode x)) _
      (require-fueled base64_failed (codec.decode x))
      (λ decoded _.
        then-fueled (require json_failed (codec.unmarshal decoded)) _
          (require-fueled json_failed (codec.unmarshal decoded))
          (λ parts _. then-fueled (salt_of codec parts) _ (salt_of-fueled codec parts) (λ salt _.
            then-fueled (get_hash codec hash x) _ (ground arith)
              (λ digest _. enrich-fueled _ parts))))

collect_claims-fueled :
    (codec : Codec) (xs : List Str) (hash : Hash) (m : Dict DisclosureClaim)
    → collect_claims codec xs hash m ≢ out_of_fuel
unfolding collect_claims
collect_claims-fueled codec [] hash m = λ e. cc
collect_claims-fueled codec (x ∷ xs) hash m =
    then-fueled (get_disclosure_claim codec x hash) _ (get_disclosure_claim-fueled codec x hash)
      (λ c _. collect_claims-fueled codec xs hash (insert c.digest c m))

claims_by_digest-fueled :
    (codec : Codec) (xs : List Str) (hash : Hash) → claims_by_digest codec xs hash ≢ out_of_fuel
unfolding claims_by_digest
claims_by_digest-fueled codec xs hash = collect_claims-fueled codec xs hash []

disclosed-fueled :
    (v : Value) (claims : Dict DisclosureClaim) (cleanup : Bool)
    → disclose_claim_value v (traversal claims cleanup) ≢ out_of_fuel
unfolding Any
disclosed-fueled v claims cleanup = Good-fueled claims state_of (traversal claims cleanup) _ (
    disclose_claim_value-Good Any claims (λ e d c k found m. tt) v (traversal claims cleanup)
      (Any-IsKept claims cleanup) (λ d m. tt))

set-Good :
    (claims : Dict DisclosureClaim) (k : Str) (c : DisclosureClaim) (s : RecursiveData)
    → IsKept Any claims s
    → lookup k s.disclosures ≡ some c
    → Good Any claims state_of s (set_disclosure_claim_value disclose_claim_value k c s)
unfolding Any
set-Good claims k c s kept found =
    set_disclosure_claim_value-Good Any claims (λ e d c k found m. tt) disclose_claim_value
      (suc (length s.disclosures))
      (λ v t kept' _ _.
        disclose_claim_value-Good Any claims (λ e d c k found m. tt) v t kept' (λ d m. tt))
      k c s kept tt found (omega (arith, left-le claims s kept.same_keys))

parse_claims-fueled :
    (claims : Dict DisclosureClaim) (ks : List Str) (s : RecursiveData)
    → IsKept Any claims s
    → parse_claims ks s ≢ out_of_fuel
unfolding parse_claims
parse_claims-fueled claims [] s kept = λ e. cc
parse_claims-fueled claims (k ∷ ks) s kept = elim (Option-cases (lookup k s.disclosures)) [
  | inl gone ↦ rw (gone, parse_claims) (parse_claims-fueled claims ks s kept)
  | inr (c, found) ↦
      rw (found, parse_claims)
        (let good = set-Good claims k c s kept found in
          then-fueled (set_disclosure_claim_value disclose_claim_value k c s) _
            (Good-fueled claims state_of s _ good)
            (λ p e.
              parse_claims-fueled claims ks p.1 (subst (Good Any claims state_of s) e good).0))
]

check_parsed-fueled : (m : Dict DisclosureClaim) → check_parsed m ≢ out_of_fuel
unfolding check_parsed
check_parsed-fueled [] = λ e. cc
check_parsed-fueled ((k, c) ∷ m) = ground (arith, check_parsed-fueled m)

output-fueled : (v : Value) → elim v [ object fs ↦ ok fs | _ ↦ err unexpected_output ] ≢ out_of_fuel
output-fueled v = ground arith

verify_disclosures_in_sdjwt_total :
    (upper : Str → Str) (codec : Codec) (xs : List Str) (jwt : Jwt)
    → verify_disclosures_in_sdjwt upper codec xs jwt ≢ out_of_fuel
unfolding verify_disclosures_in_sdjwt
verify_disclosures_in_sdjwt_total upper codec xs jwt =
    let payload = copy_map jwt.payload in
    then-fueled (get_crypto_hash_from_claims upper payload) _
      (get_crypto_hash_from_claims-fueled upper payload)
      (λ hash _.
        then-fueled (claims_by_digest codec xs hash) _ (claims_by_digest-fueled codec xs hash)
          (λ claims _.
            then-fueled (disclose_claim_value (object payload) (traversal claims false)) _
              (disclosed-fueled (object payload) claims false)
              (λ p _. check_parsed-fueled p.1.disclosures)))

get_disclosed_claims_total :
    (upper : Str → Str) (codec : Codec) (xs : List Str) (hash : Hash) (cs : List DisclosureClaim)
    (claims : Fields)
    → (get_disclosure_claims upper codec xs hash ≢ out_of_fuel)
      × (get_disclosed_claims upper codec cs claims ≢ out_of_fuel)
unfolding get_disclosure_claims get_disclosed_claims
get_disclosed_claims_total upper codec xs hash cs claims = (
  then-fueled (claims_by_digest codec xs hash) _ (claims_by_digest-fueled codec xs hash)
      (λ parsed _.
        then-fueled (parse_claims (keys parsed) (traversal parsed true)) _
          (parse_claims-fueled parsed (keys parsed) (traversal parsed true)
            (Any-IsKept parsed true))
          (λ s _ e. cc)),
  then-fueled (get_crypto_hash_from_claims upper claims) _
      (get_crypto_hash_from_claims-fueled upper claims)
      (λ hash _.
        then-fueled (disclose_claim_value (object claims) (traversal (claims_map cs []) true)) _
          (disclosed-fueled (object claims) (claims_map cs []) true) (λ p _. output-fueled p.0)),
)

-- `VerifyDisclosuresInSDJWT`, `GetDisclosureClaims` and `GetDisclosedClaims` end for any disclosures and
-- claims, even when disclosures name each other's digests in a circle: fuel for one opening of each
-- disclosure is enough.
pub disclosing_total :
    (upper : Str → Str) (codec : Codec) (xs : List Str) (jwt : Jwt) (hash : Hash)
    (cs : List DisclosureClaim) (claims : Fields)
    → (verify_disclosures_in_sdjwt upper codec xs jwt ≢ out_of_fuel)
      × (get_disclosure_claims upper codec xs hash ≢ out_of_fuel)
      × (get_disclosed_claims upper codec cs claims ≢ out_of_fuel)
disclosing_total upper codec xs jwt hash cs claims =
    let (parsed, disclosed) = get_disclosed_claims_total upper codec xs hash cs claims in
    (verify_disclosures_in_sdjwt_total upper codec xs jwt, parsed, disclosed)
