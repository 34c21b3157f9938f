-- ===== src/SdJwt/Covered.antt =====
-- What `VerifyDisclosuresInSDJWT` accepts.
use mathlib.Core.Path.{subst}
use vc_go.Prelude.{◌≤◌, ◌≡◌, sym, ap, true, false, List, [], some, arith, length, Str}
use vc_go.Prelude.Lists.{length-map}
use vc_go.Prelude.Dicts.{Dict, lookup, keys}
use vc_go.Requirement.Sets.{has}
use vc_go.SdJwt.Types.{Value, object, ok, Hash, DisclosureClaim, RecursiveData}
use vc_go.SdJwt.Claims.{get_crypto_hash_from_claims}
use vc_go.SdJwt.Disclosures.{Codec, get_disclosure_claim, collect_claims, claims_by_digest}
use vc_go.SdJwt.Disclose.{disclose_claim_value}
use vc_go.SdJwt.Verification.{Jwt, check_parsed, traversal, verify_disclosures_in_sdjwt}
use vc_go.SdJwt.Mentions.{Mentions, Reached, listed, nested}
use vc_go.SdJwt.Unseen.{unseen, unseen-le-length, has-keys}
use vc_go.SdJwt.Keeping.{IsKept, Good, state_of}
use vc_go.SdJwt.Traversal.{disclose-Good}
use vc_go.SdJwt.Parsed.{
  copy_map-same, then-ok, claims_by_digest-AllFresh, collect_claims-digest, start-IsKept,
  check_parsed-lookup, lookup-has,
}

pub left-le :
    (claims : Dict DisclosureClaim) (s : RecursiveData)
    → keys s.disclosures ≡ keys claims
    → unseen (keys claims) s.nested_sd ≤ length s.disclosures
left-le claims s same = omega (
  arith,
  unseen-le-length (keys claims) s.nested_sd,
  ap length same,
  length-map s.disclosures (λ e. e.0),
)

-- The traversal of a value whose digests are known.
pub disclose_claim_value-Good :
    (known : Str → Type 0) (claims : Dict DisclosureClaim)
    → ((e d : Str) (c : DisclosureClaim)
        → known e
        → lookup e claims ≡ some c
        → Mentions d c.value
        → known d)
    → (v : Value) (s : RecursiveData) → IsKept known claims s
    → ((d : Str) → Mentions d v → known d)
    → Good known claims state_of s (disclose_claim_value v s)
unfolding disclose_claim_value
disclose_claim_value-Good known claims closed v s kept k =
    disclose-Good known claims closed (length s.disclosures) v s kept k
      (left-le claims s kept.same_keys)

-- The disclosure is parsed, and its digest stands in the claims or, through other disclosures whose
-- digests do, in what they disclose.
pub record IsCovered (codec : Codec) (hash : Hash) (claims : Dict DisclosureClaim) (payload : Value)
    (x : Str) : Type 0 where
  pub claim : DisclosureClaim
  pub read : get_disclosure_claim codec x hash ≡ ok claim
  pub reached : Reached claims payload claim.digest

-- When `VerifyDisclosuresInSDJWT` accepts, the payload names a supported hash, all disclosures parse,
-- and the digest of each is reached: it stands in the payload or in the value of a disclosure whose
-- digest is reached.
pub verify_disclosures_in_sdjwt-IsCovered :
    (upper : Str → Str) (codec : Codec) (xs : List Str) (jwt : Jwt)
    → verify_disclosures_in_sdjwt upper codec xs jwt ≡ ok tt
    → (hash : Hash) × (claims : Dict DisclosureClaim) × (get_crypto_hash_from_claims upper
          jwt.payload
        ≡ ok hash)
      × (claims_by_digest codec xs hash ≡ ok claims)
      × ((x : Str) → has xs x ≡ true → IsCovered codec hash claims (object jwt.payload) x)
unfolding verify_disclosures_in_sdjwt claims_by_digest
verify_disclosures_in_sdjwt-IsCovered upper codec xs jwt h =
    let h0 = rw (copy_map-same jwt.payload) at h in
    let (hash, named, h1) = then-ok (get_crypto_hash_from_claims upper jwt.payload) _ h0 in
    let (claims, parsed, h2) = then-ok (collect_claims codec xs hash []) _ h1 in
    let (out, done, h3) =
      then-ok (disclose_claim_value (object jwt.payload) (traversal claims false)) _ h2 in
    (hash, claims, named, parsed, covered hash claims parsed out done h3)
  where
    covered :
        (hash : Hash) (claims : Dict DisclosureClaim)
        → collect_claims codec xs hash [] ≡ ok claims
        → (out : Value × RecursiveData)
        → disclose_claim_value (object jwt.payload) (traversal claims false) ≡ ok out
        → check_parsed out.1.disclosures ≡ ok tt
        → (x : Str) → has xs x ≡ true
        → IsCovered codec hash claims (object jwt.payload) x
    covered hash claims parsed out done checked x given =
        let root = object jwt.payload in
        let all = claims_by_digest-AllFresh codec hash xs claims parsed in
        let begin = start-IsKept codec hash (Reached claims root) claims false all in
        let good =
          disclose_claim_value-Good (Reached claims root) claims
            (λ e d c r found m. nested c r found m) root (traversal claims false) begin
            (λ d m. listed m) in
        let (kept, _) =
          subst (Good (Reached claims root) claims state_of (traversal claims false)) done good in
        let (c, b, read, found) = collect_claims-digest codec hash xs [] claims x parsed given in
        let present =
          subst (λ ks. has ks c.digest ≡ true) (sym kept.same_keys)
            (has-keys c.digest claims found) in
        let (d, left_over) = lookup-has c.digest out.1.disclosures present in
        record {
          claim = c;
          read = read;
          reached =
              kept.parsed c.digest d left_over
                (check_parsed-lookup out.1.disclosures c.digest d checked left_over);
        }
