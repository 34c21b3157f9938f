-- ===== src/SdJwt/Verifier.antt =====
-- sdjwt/verifier: `Parse` and the checks of the holder.
use vc_go.Prelude.{
  Bool, not, ◌&&◌, List, [], ◌∷◌, Option, none, some, if◌then◌else◌, Str, codes, str_eq,
}
use vc_go.Prelude.Dicts.{lookup}
use vc_go.SdJwt.Types.{
  Value, Fields, entries, jwt_invalid, times_invalid, holder_required, jwk_missing, jwk_invalid,
  holder_jwt_invalid, holder_proof_invalid, binding_invalid, nonce_mismatch, audience_mismatch,
  Result, ok, err, ◌>>=◌, Hash, Version, v2, v5,
}
use vc_go.SdJwt.Claims.{get_cnf, get_crypto_hash_from_claims}
use vc_go.SdJwt.Disclosures.{Codec, require}
use vc_go.SdJwt.Format.{parse_presentation}
use vc_go.SdJwt.Verification.{
  Headers, Jwt, copy_map, verify_signing_alg, verify_typ, check_for_duplicates,
  verify_disclosures_in_sdjwt, get_disclosure_claims, get_disclosed_claims,
}

-- `parseOpts`; the signature verifier, the detached payload and the leeway are in the environment.
pub record ParseOpts : Type 0 where
  pub issuer_signing_algorithms : List Str
  pub holder_signing_algorithms : List Str
  pub holder_verification_required : Bool
  pub expected_audience : Str
  pub expected_nonce : Str
  pub expected_typ_header : Str

-- The payload of a holder or key binding JWT, as far as it is checked.
pub record Binding : Type 0 where
  pub nonce : Str
  pub audience : Str

-- What the verifier calls: `jwt.ParseAndCheckProof` for the issuer's JWT, the checks of nbf, iat and exp,
-- the reading of a key, `jwt.Parse` and `jwt.CheckProof` for the holder's JWT, and mapstructure.
pub record Environment (Key : Type 0) : Type 0 where
  pub upper : Str → Str
  pub codec : Codec
  pub parse_and_check_proof : Str → Option Jwt
  pub times_valid : Fields → Bool
  pub key_of : Value → Option Key
  pub parse_jwt : Str → Option Jwt
  pub check_proof : Str → Key → Bool
  pub read_binding : Fields → Option Binding

module _ {Key : Type 0} (env : Environment Key) (opts : ParseOpts) where
  -- `VerifyJWT` reads the times of the claims and compares them with the clock by libraries, whose answer
  -- is a parameter; here it becomes a result.
  unfoldable pub require_timely : Jwt → Result (Unit {0})
  require_timely signed_jwt =
      if env.times_valid signed_jwt.payload then ok tt else err times_invalid

  unfoldable pub validate_issuer_signed_sdjwt : Str → List Str → Result Jwt
  validate_issuer_signed_sdjwt sdjwt disclosures =
      require jwt_invalid (env.parse_and_check_proof sdjwt) >>= λ signed_jwt.
      verify_signing_alg signed_jwt.headers opts.issuer_signing_algorithms >>= λ _.
      require_timely signed_jwt >>= λ _. check_for_duplicates disclosures >>= λ _. ok signed_jwt

  unfoldable pub get_signature_verifier : Fields → Result Key
  get_signature_verifier claims = get_cnf claims >>= λ cnf.
      require jwk_missing (lookup (codes "jwk") (entries cnf)) >>= λ jwk.
      require jwk_invalid (env.key_of jwk)

  -- An expectation that is not empty must be met.
  unfoldable pub differs : Str → Str → Bool
  differs expected value = not (str_eq expected []) && not (str_eq expected value)

  unfoldable pub check_binding : Binding → Result (Unit {0})
  check_binding binding =
      if differs opts.expected_nonce binding.nonce
      then err nonce_mismatch
      else if differs opts.expected_audience binding.audience
      then err audience_mismatch
      else ok tt

  unfoldable pub verify_key_binding_jwt : Jwt → Result (Unit {0})
  verify_key_binding_jwt holder_jwt =
      require binding_invalid (env.read_binding holder_jwt.payload) >>= λ binding.
      check_binding binding

  unfoldable pub verify_holder_binding_jwt : Jwt → Result (Unit {0})
  verify_holder_binding_jwt holder_jwt =
      require binding_invalid (env.read_binding holder_jwt.payload) >>= λ binding.
      check_binding binding

  -- A key binding JWT says so in its type.
  unfoldable pub version_of : Headers → Version
  version_of headers = elim (headers.type) [
    | none ↦ v2
    | some typ ↦ if str_eq typ (codes "kb+jwt") then v5 else v2
  ]

  unfoldable pub verify_holder_verification_jwt : Jwt → Result (Unit {0})
  verify_holder_verification_jwt holder_jwt =
      verify_signing_alg holder_jwt.headers opts.holder_signing_algorithms >>= λ _.
      require_timely holder_jwt >>= λ _. elim (version_of holder_jwt.headers) [
        | v5 ↦ verify_key_binding_jwt holder_jwt
        | v2 ↦ verify_holder_binding_jwt holder_jwt
      ]

  unfoldable pub check_holder_proof : Str → Key → Result (Unit {0})
  check_holder_proof holder key =
      if env.check_proof holder key then ok tt else err holder_proof_invalid

  unfoldable pub run_holder_verification : Jwt → Str → Result (Unit {0})
  run_holder_verification sdjwt [] =
      if opts.holder_verification_required then err holder_required else ok tt
  run_holder_verification sdjwt (c ∷ holder) =
      get_signature_verifier (copy_map sdjwt.payload) >>= λ key.
      require holder_jwt_invalid (env.parse_jwt (c ∷ holder)) >>= λ holder_jwt.
      check_holder_proof (c ∷ holder) key >>= λ _. verify_holder_verification_jwt holder_jwt

  unfoldable pub check_typ : Headers → Result (Unit {0})
  check_typ headers =
      if str_eq opts.expected_typ_header []
      then ok tt
      else verify_typ headers opts.expected_typ_header

  unfoldable pub disclosed_claims : List Str → Jwt → Hash → Result Fields
  disclosed_claims disclosures signed_jwt hash =
      get_disclosure_claims env.upper env.codec disclosures hash >>= λ claims.
      get_disclosed_claims env.upper env.codec claims (copy_map signed_jwt.payload)

  unfoldable pub parse : Str → Result Fields
  parse combined =
      let cfp = parse_presentation combined in
      validate_issuer_signed_sdjwt cfp.sdjwt cfp.disclosures >>= λ signed_jwt.
      verify_disclosures_in_sdjwt env.upper env.codec cfp.disclosures signed_jwt >>= λ _.
      check_typ signed_jwt.headers >>= λ _.
      run_holder_verification signed_jwt cfp.holder_verification >>= λ _.
      get_crypto_hash_from_claims env.upper signed_jwt.payload >>= λ hash.
      disclosed_claims cfp.disclosures signed_jwt hash
