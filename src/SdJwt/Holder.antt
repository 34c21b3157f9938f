-- ===== src/SdJwt/Holder.antt =====
-- sdjwt/holder: the parsing of an issued SD-JWT, and the making of a presentation.
use vc_go.Prelude.{Bool, List, [], ◌∷◌, map, Option, none, some, if◌then◌else◌, Str, str_eq}
use vc_go.Requirement.Sets.{has}
use vc_go.SdJwt.Types.{
  Value, Fields, jwt_invalid, times_invalid, unexpected_key_binding, no_disclosures, binding_failed,
  disclosure_not_found, Result, ok, err, ◌>>=◌, Hash, DisclosureClaim,
}
use vc_go.SdJwt.Claims.{get_crypto_hash_from_claims, slice_to_map}
use vc_go.SdJwt.Disclosures.{Codec, require}
use vc_go.SdJwt.Format.{parse_issuance, serialize_presentation, last_part}
use vc_go.SdJwt.Verification.{
  Jwt, verify_signing_alg, verify_typ, verify_disclosures_in_sdjwt, get_disclosure_claims,
}

pub record Claim : Type 0 where
  pub disclosure : Str
  pub name : Str
  pub value : Value

-- The holder's `parseOpts`; the signature verifier, the detached payload and the leeway are in the
-- environment.
pub record HolderOpts : Type 0 where
  pub sdjwt_v5_validation : Bool
  pub issuer_signing_algorithms : List Str
  pub expected_typ_header : Str

-- What the holder calls: `jwt.ParseAndCheckProof`, the checks of times, `jwt.IsJWS` with
-- `jwt.IsJWTUnsecured`, and the signing and serializing of a binding JWT.
pub record HolderEnvironment (BindingInfo : Type 0) : Type 0 where
  pub upper : Str → Str
  pub codec : Codec
  pub parse_and_check_proof : Str → Option Jwt
  pub times_valid : Fields → Bool
  pub is_jwt : Str → Bool
  pub sign : BindingInfo → Option Str

unfoldable pub claim_of : DisclosureClaim → Claim
claim_of d = record { disclosure = d.disclosure; name = d.name; value = d.value }

-- The loop over the claims to disclose.
unfoldable pub check_selected : List Str → List Str → Result (Unit {0})
check_selected disclosures [] = ok tt
check_selected disclosures (ctd ∷ claims_to_disclose) =
    if has (slice_to_map disclosures) ctd
    then check_selected disclosures claims_to_disclose
    else err (disclosure_not_found ctd)

unfoldable pub check_any : List Str → Result (Unit {0})
check_any [] = err no_disclosures
check_any (disclosure ∷ disclosures) = ok tt

module _ {BindingInfo : Type 0} (env : HolderEnvironment BindingInfo) where
  unfoldable pub get_claims : List Str → Hash → Result (List Claim)
  get_claims disclosures hash =
      get_disclosure_claims env.upper env.codec disclosures hash >>= λ claims.
      ok (map claim_of claims)

  unfoldable pub check_no_key_binding : List Str → Result (Unit {0})
  check_no_key_binding disclosures =
      if env.is_jwt (last_part disclosures) then err unexpected_key_binding else ok tt

  unfoldable pub apply_sdjwt_v5_validation : HolderOpts → Jwt → List Str → Result (Unit {0})
  apply_sdjwt_v5_validation opts signed_jwt disclosures =
      let typed =
        if str_eq opts.expected_typ_header []
        then ok tt
        else verify_typ signed_jwt.headers opts.expected_typ_header in
      check_no_key_binding disclosures >>= λ _. typed >>= λ _.
      verify_signing_alg signed_jwt.headers opts.issuer_signing_algorithms >>= λ _.
      if env.times_valid signed_jwt.payload then ok tt else err times_invalid

  -- The holder's `Parse`.
  unfoldable pub parse_issued : HolderOpts → Str → Result (List Claim)
  parse_issued opts combined =
      let cfi = parse_issuance combined in
      require jwt_invalid (env.parse_and_check_proof cfi.sdjwt) >>= λ signed_jwt.
      let validated =
        if opts.sdjwt_v5_validation
        then apply_sdjwt_v5_validation opts signed_jwt cfi.disclosures
        else ok tt in
      validated >>= λ _.
      verify_disclosures_in_sdjwt env.upper env.codec cfi.disclosures signed_jwt >>= λ _.
      get_crypto_hash_from_claims env.upper signed_jwt.payload >>= λ hash.
      get_claims cfi.disclosures hash

  -- `CreateHolderVerification`, where there is binding information.
  unfoldable pub create_holder_verification : Option BindingInfo → Result Str
  create_holder_verification none = ok []
  create_holder_verification (some info) = require binding_failed (env.sign info)

  unfoldable pub create_presentation : Str → List Str → Option BindingInfo → Result Str
  create_presentation combined claims_to_disclose info =
      let cfi = parse_issuance combined in
      check_any cfi.disclosures >>= λ _. check_selected cfi.disclosures claims_to_disclose >>= λ _.
      create_holder_verification info >>= λ holder. ok (
        serialize_presentation (record {
          sdjwt = cfi.sdjwt;
          disclosures = claims_to_disclose;
          holder_verification = holder;
        }))
