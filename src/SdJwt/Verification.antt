-- ===== src/SdJwt/Verification.antt =====
-- sdjwt/common: the checks of an SD-JWT and its disclosures; util/maphelpers: `CopyMap`.
use vc_go.Prelude.{
  Bool, true, false, List, [], ◌∷◌, map, Option, none, some, if◌then◌else◌, Str, codes, str_eq,
}
use vc_go.Prelude.Dicts.{Dict, lookup, insert, keys}
use vc_go.Requirement.Sets.{has}
use vc_go.SdJwt.Types.{
  Value, Fields, object, end, field, alg_missing, alg_none, alg_not_allowed, typ_missing,
  unexpected_typ, unexpected_output, digest_not_found, duplicate_values, Result, ok, err, ◌>>=◌,
  Hash, DisclosureClaim, RecursiveData,
}
use vc_go.SdJwt.Claims.{get_crypto_hash_from_claims}
use vc_go.SdJwt.Disclosures.{Codec, require, claims_by_digest}
use vc_go.SdJwt.Disclose.{set_disclosure_claim_value, disclose_claim_value}

-- The header fields that are read of `jose.Headers`.
pub record Headers : Type 0 where
  pub algorithm : Option Str
  pub type : Option Str

-- `JSONWebToken`, as far as it is read.
pub record Jwt : Type 0 where
  pub headers : Headers
  pub payload : Fields

-- A new map takes the entries one by one, and a map inside is copied too.
unfoldable mutual
  pub copy_map : Fields → Fields
  copy_map end = end
  copy_map (field k v fs) = field k (copy_value v) (copy_map fs)

  pub copy_value : Value → Value
  copy_value (object fs) = object (copy_map fs)
  copy_value v = v

unfoldable pub verify_signing_alg : Headers → List Str → Result (Unit {0})
verify_signing_alg headers secure_algs = require alg_missing (headers.algorithm) >>= λ alg.
    if str_eq alg (codes "none")
    then err alg_none
    else if has secure_algs alg
    then ok tt
    else err (alg_not_allowed alg)

unfoldable pub verify_typ : Headers → Str → Result (Unit {0})
verify_typ headers expected_typ = require typ_missing (headers.type) >>= λ typ.
    if str_eq typ expected_typ then ok tt else err (unexpected_typ typ)

-- The values that turn up again, in order.
unfoldable pub collect_duplicates : List Str → List Str → List Str
collect_duplicates [] seen = []
collect_duplicates (value ∷ values) seen =
    if has seen value
    then value ∷ collect_duplicates values seen
    else collect_duplicates values (value ∷ seen)

unfoldable pub check_for_duplicates : List Str → Result (Unit {0})
check_for_duplicates values = elim (collect_duplicates values []) [
  | [] ↦ ok tt
  | ◌∷◌ d ds ↦ err (duplicate_values (d ∷ ds))
]

-- The last loop of `VerifyDisclosuresInSDJWT`.
unfoldable pub check_parsed : Dict DisclosureClaim → Result (Unit {0})
check_parsed [] = ok tt
check_parsed ((digest, claim) ∷ claims) =
    if claim.is_value_parsed then check_parsed claims else err (digest_not_found claim.digest)

-- The loop of `GetDisclosureClaims` over the claims of the map.
unfoldable pub parse_claims : List Str → RecursiveData → Result RecursiveData
parse_claims [] s = ok s
parse_claims (digest ∷ digests) s = elim (lookup digest s.disclosures) [
  | none ↦ parse_claims digests s
  | some claim ↦ set_disclosure_claim_value disclose_claim_value digest claim s >>= λ (_, t).
      parse_claims digests t
]

unfoldable pub claims_map : List DisclosureClaim → Dict DisclosureClaim → Dict DisclosureClaim
claims_map [] m = m
claims_map (claim ∷ claims) m = claims_map claims (insert claim.digest claim m)

abbrev pub traversal : Dict DisclosureClaim → Bool → RecursiveData
traversal disclosures cleanup = record {
  disclosures = disclosures;
  nested_sd = [];
  cleanup_digests_claims = cleanup;
}

module _ (upper : Str → Str) (codec : Codec) where
  unfoldable pub verify_disclosures_in_sdjwt : List Str → Jwt → Result (Unit {0})
  verify_disclosures_in_sdjwt disclosures signed_jwt =
      let claims = copy_map signed_jwt.payload in
      get_crypto_hash_from_claims upper claims >>= λ hash.
      claims_by_digest codec disclosures hash >>= λ parsed.
      disclose_claim_value (object claims) (traversal parsed false) >>= λ (_, s).
      check_parsed s.disclosures

  unfoldable pub get_disclosure_claims : List Str → Hash → Result (List DisclosureClaim)
  get_disclosure_claims disclosures hash = claims_by_digest codec disclosures hash >>= λ parsed.
      parse_claims (keys parsed) (traversal parsed true) >>= λ s. ok (map (λ e. e.1) s.disclosures)

  unfoldable pub get_disclosed_claims : List DisclosureClaim → Fields → Result Fields
  get_disclosed_claims disclosure_claims claims = get_crypto_hash_from_claims upper claims >>= λ _.
      disclose_claim_value (object claims) (traversal (claims_map disclosure_claims []) true)
      >>= λ (output, _). elim output [ object fs ↦ ok fs | _ ↦ err unexpected_output ]
