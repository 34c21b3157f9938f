-- ===== src/Checker/Check.antt =====
-- proof/checker/checker.go: the checks.
use vc_go.Prelude.{
  Bool, not, ◌&&◌, List, [], ◌∷◌, Option, none, some, if◌then◌else◌, Str, codes, str_eq,
}
use vc_go.Prelude.Int.{pos, eqb_ℤ}
use vc_go.Checker.Types.{
  Jwk, VerificationMethod, PublicKey, LdProof, JwtHeaders, CheckCwtProofRequest, ProofCheckerBase,
  ProofChecker, EmbeddedVmProofChecker, missing_key_id, missing_alg, invalid_key_id, bad_signature,
  issuer_not_supported, bad_cose_key, not_canonical, Result, ok, err, ◌>>=◌, require, Opt,
  apply_opts, empty_base,
}
use vc_go.Checker.Lookup.{
  convert_to_public_key, get_supported_proof, get_supported_proof_by_alg,
  get_supported_cwt_proof_by_alg, get_signature_verifier,
}

unfoldable pub judge : Bool → Result (Unit {0})
judge valid = if valid then ok tt else err bad_signature

module _ {Document : Type 0} where
  unfoldable pub new_checker :
      (Str → Str → Option VerificationMethod) → List (Opt Document) → ProofChecker Document
  new_checker resolver opts = record {
    base = apply_opts opts empty_base;
    resolve_verification_method = resolver;
  }

  unfoldable pub new_embedded_vm_proof_checker :
      VerificationMethod → List (Opt Document) → EmbeddedVmProofChecker Document
  new_embedded_vm_proof_checker vm opts = record { base = apply_opts opts empty_base; vm = vm }

  unfoldable pub new_embedded_jwk_proof_checker :
      Jwk → List (Opt Document) → EmbeddedVmProofChecker Document
  new_embedded_jwk_proof_checker jwk =
      new_embedded_vm_proof_checker
        (record { type = codes "JsonWebKey2020"; value = []; jwk = some jwk })

  unfoldable pub get_ldp_canonical_document :
      ProofCheckerBase Document → LdProof → Document → Result Str
  get_ldp_canonical_document c proof doc = get_supported_proof c proof.type >>= λ supported.
      require not_canonical (supported.proof_descriptor.get_canonical_document doc)

  unfoldable pub get_ldp_digest : ProofCheckerBase Document → LdProof → Str → Result Str
  get_ldp_digest c proof doc = get_supported_proof c proof.type >>= λ supported.
      ok (supported.proof_descriptor.get_digest doc)

  -- A key and the verifier for its type.
  unfoldable pub verify_with : ProofCheckerBase Document → Str → Str → PublicKey → Result (Unit {0})
  verify_with c msg signature pub_key = get_signature_verifier c pub_key.type >>= λ verifier.
      judge (verifier.verify signature msg pub_key)

  unfoldable pub resolve : ProofChecker Document → Str → Str → Result VerificationMethod
  resolve c key_id issuer = require invalid_key_id (c.resolve_verification_method key_id issuer)

  unfoldable pub check_ld_proof :
      ProofChecker Document → LdProof → Str → Str → Str → Result (Unit {0})
  check_ld_proof c proof expected_proof_issuer msg signature =
      require missing_key_id (proof.public_key_id) >>= λ public_key_id.
      resolve c public_key_id expected_proof_issuer >>= λ vm.
      get_supported_proof c.base proof.type >>= λ supported.
      convert_to_public_key supported.proof_descriptor.supported_verification_methods vm
      >>= λ pub_key. elim (supported.proof_signature_verifier_ex) [
        | none ↦ verify_with c.base msg signature pub_key
        | some verify_ex ↦ judge (verify_ex signature msg pub_key proof)
      ]

  unfoldable pub check_jwt_proof :
      ProofChecker Document → JwtHeaders → Str → Str → Str → Result (Unit {0})
  check_jwt_proof c headers expected_proof_issuer msg signature =
      require missing_key_id (headers.key_id) >>= λ key_id.
      require missing_alg (headers.algorithm) >>= λ alg.
      resolve c key_id expected_proof_issuer >>= λ vm.
      get_supported_proof_by_alg c.base alg >>= λ supported.
      convert_to_public_key supported.supported_verification_methods vm >>= λ pub_key.
      verify_with c.base msg signature pub_key

  unfoldable pub check_cwt_proof_by_key_id :
      ProofChecker Document → CheckCwtProofRequest → Str → Str → Str → Result (Unit {0})
  check_cwt_proof_by_key_id c request expected_proof_issuer msg signature =
      resolve c request.key_id expected_proof_issuer >>= λ vm.
      get_supported_cwt_proof_by_alg c.base request.algo >>= λ supported.
      convert_to_public_key supported.supported_verification_methods vm >>= λ pub_key.
      verify_with c.base msg signature pub_key

  -- `cose_key` reads the key material: hex, CBOR, the COSE key, its JWK and its type for the KMS.
  module _ (cose_key : Str → Option (Jwk × Str)) where
    unfoldable pub check_cwt_proof_by_cose_key :
        ProofChecker Document → CheckCwtProofRequest → Str → Str → Str → Result (Unit {0})
    check_cwt_proof_by_cose_key c request [] msg signature =
        require bad_cose_key (cose_key request.key_material) >>= λ (jwk, key_type).
        get_supported_cwt_proof_by_alg c.base request.algo >>= λ supported.
        convert_to_public_key supported.supported_verification_methods
          (record { type = codes "JsonWebKey2020"; value = []; jwk = some jwk })
        >>= λ pub_key. get_signature_verifier c.base key_type >>= λ verifier.
            judge (verifier.verify signature msg pub_key)
    check_cwt_proof_by_cose_key c request (i ∷ issuer) msg signature = err issuer_not_supported

    unfoldable pub check_cwt_proof :
        ProofChecker Document → CheckCwtProofRequest → Str → Str → Str → Result (Unit {0})
    check_cwt_proof c request expected_proof_issuer msg signature =
        if str_eq request.key_id [] && str_eq request.key_material []
        then err missing_key_id
        else if eqb_ℤ request.algo (pos 0)
        then err missing_alg
        else if not (str_eq request.key_id [])
        then check_cwt_proof_by_key_id c request expected_proof_issuer msg signature
        else check_cwt_proof_by_cose_key c request expected_proof_issuer msg signature

  -- `EmbeddedVMProofChecker.CheckJWTProof`
  unfoldable pub check_embedded_jwt_proof :
      EmbeddedVmProofChecker Document → JwtHeaders → Str → Str → Result (Unit {0})
  check_embedded_jwt_proof c headers msg signature =
      require missing_alg (headers.algorithm) >>= λ alg.
      get_supported_proof_by_alg c.base alg >>= λ supported.
      convert_to_public_key supported.supported_verification_methods c.vm >>= λ pub_key.
      verify_with c.base msg signature pub_key

abbrev pub possible_issuer_path : List Str
possible_issuer_path =
    codes "vc.issuer.id" ∷ codes "vc.issuer" ∷ codes "issuer.id" ∷ codes "issuer" ∷ codes "iss" ∷ []

-- The first path that leads to a text; `get` is what gjson reads of the payload at a path, empty where
-- there is no text.
unfoldable pub find_at : (Str → Str) → List Str → Str
find_at get [] = []
find_at get (path ∷ paths) = elim (get path) [ [] ↦ find_at get paths | ◌∷◌ a s ↦ a ∷ s ]

unfoldable pub find_issuer : (Str → Str) → Str
find_issuer get = find_at get possible_issuer_path
