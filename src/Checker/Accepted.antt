-- ===== src/Checker/Accepted.antt =====
-- What the checks of proofs accept.
use vc_go.Prelude.{
  ◌≡◌, refl, ◌≢◌, ◌⊎◌, inl, inr, true, List, [], ◌∷◌, Option, none, some, arith, Bool-cases, Str,
  codes, str_eq, str_eq_iff,
}
use vc_go.Prelude.Int.{eqb_ℤ, eqb_ℤ→eq}
use vc_go.Checker.Types.{
  Jwk, VerificationMethod, PublicKey, SupportedVerificationMethod, LdProof, JwtHeaders,
  CheckCwtProofRequest, SignatureVerifierEx, LdCheckDescriptor, JwtProofDescriptor, ProofChecker,
  missing_key_id, missing_alg, invalid_key_id, bad_cose_key, unsupported_alg,
  unsupported_proof_type, unsupported_cwt_alg, Result, ok, ◌>>=◌, require,
}
use vc_go.Checker.Lookup.{
  convert_to_public_key, get_supported_proof, get_supported_proof_by_alg,
  get_supported_cwt_proof_by_alg,
}
use vc_go.Checker.Check.{
  judge, verify_with, resolve, check_ld_proof, check_jwt_proof, check_cwt_proof_by_key_id,
  check_cwt_proof_by_cose_key, check_cwt_proof,
}
use vc_go.Checker.Found.{
  then-ok, require-some, Member, find_first-Member, judge-valid, IsKeyOf,
  convert_to_public_key-IsKeyOf, IsVerified, get_signature_verifier-IsVerified,
}

-- What is checked: one of the three kinds of proof.
pub data Request : Type 0 where
  of_ld : LdProof → Request
  of_jwt : JwtHeaders → Request
  of_cwt : CheckCwtProofRequest → Request

module _ {Document : Type 0} (cose_key : Str → Option (Jwk × Str)) (c : ProofChecker Document)
    (issuer msg signature : Str) where
  unfoldable pub check : Request → Result (Unit {0})
  check (of_ld proof) = check_ld_proof c proof issuer msg signature
  check (of_jwt headers) = check_jwt_proof c headers issuer msg signature
  check (of_cwt request) = check_cwt_proof cose_key c request issuer msg signature

  -- The method that the resolver returns for the identifier and the issuer gives the key, and a verifier
  -- of the checker accepts the signature with it.
  pub record IsSigned (key_id : Str) (methods : List SupportedVerificationMethod) : Type 0 where
    pub vm : VerificationMethod
    pub key : PublicKey
    pub resolved : c.resolve_verification_method key_id issuer ≡ some vm
    pub key_of : IsKeyOf methods vm key
    pub verified : IsVerified c.base key.type msg signature key

  -- What an accepted proof has, for each kind.
  pub data IsProven : Request → Type 0 where
    ld_proven :
        (proof : LdProof) (key_id : Str) (d : LdCheckDescriptor Document) (vm : VerificationMethod)
        (key : PublicKey)
        → proof.public_key_id ≡ some key_id
        → Member d c.base.supported_ld_proofs
        → d.proof_descriptor.proof_type ≡ proof.type
        → c.resolve_verification_method key_id issuer ≡ some vm
        → IsKeyOf d.proof_descriptor.supported_verification_methods vm key
        → ((d.proof_signature_verifier_ex ≡ none) × IsVerified c.base key.type msg signature key)
          ⊎ ((verify_ex : SignatureVerifierEx) × (d.proof_signature_verifier_ex ≡ some verify_ex)
              × (verify_ex signature msg key proof ≡ true))
        → IsProven (of_ld proof)
    jwt_proven :
        (headers : JwtHeaders) (key_id alg : Str) (d : JwtProofDescriptor)
        → headers.key_id ≡ some key_id
        → headers.algorithm ≡ some alg
        → Member d c.base.supported_jwt_proofs
        → d.jwt_algorithm ≡ alg
        → IsSigned key_id d.supported_verification_methods
        → IsProven (of_jwt headers)
    cwt_proven :
        (request : CheckCwtProofRequest) (d : JwtProofDescriptor)
        → request.key_id ≢ []
        → Member d c.base.supported_cwt_proofs
        → d.cwt_algorithm ≡ request.algo
        → IsSigned request.key_id d.supported_verification_methods
        → IsProven (of_cwt request)
    cose_proven :
        (request : CheckCwtProofRequest) (d : JwtProofDescriptor) (jwk : Jwk) (key_type : Str)
        (key : PublicKey)
        → request.key_id ≡ []
        → issuer ≡ []
        → cose_key request.key_material ≡ some (jwk, key_type)
        → Member d c.base.supported_cwt_proofs
        → d.cwt_algorithm ≡ request.algo
        → IsKeyOf d.supported_verification_methods
            (record { type = codes "JsonWebKey2020"; value = []; jwk = some jwk })
            key
        → IsVerified c.base key_type msg signature key
        → IsProven (of_cwt request)

  -- The last steps of the checks by a key identifier.
  signed :
      (key_id : Str) (vm : VerificationMethod) (methods : List SupportedVerificationMethod)
      → resolve c key_id issuer ≡ ok vm
      → (convert_to_public_key methods vm >>= verify_with c.base msg signature) ≡ ok tt
      → IsSigned key_id methods
  unfolding resolve verify_with
  signed key_id vm methods found h =
      let (key, made, verified) = then-ok (convert_to_public_key methods vm) _ h in
      record {
        vm = vm;
        key = key;
        resolved = require-some invalid_key_id _ found;
        key_of = convert_to_public_key-IsKeyOf methods vm key made;
        verified = get_signature_verifier-IsVerified c.base key.type msg signature key verified;
      }

  check_jwt_proof-IsProven :
      (headers : JwtHeaders)
      → check_jwt_proof c headers issuer msg signature ≡ ok tt
      → IsProven (of_jwt headers)
  unfolding check_jwt_proof get_supported_proof_by_alg
  check_jwt_proof-IsProven headers h =
      let (key_id, has_id, h1) = then-ok (require missing_key_id headers.key_id) _ h in
      let (alg, has_alg, h2) = then-ok (require missing_alg headers.algorithm) _ h1 in
      let (vm, resolved, h3) = then-ok (resolve c key_id issuer) _ h2 in
      let (d, found, h4) = then-ok (get_supported_proof_by_alg c.base alg) _ h3 in
      let (listed, same) =
        find_first-Member (λ s. str_eq s.jwt_algorithm alg) c.base.supported_jwt_proofs d
          (require-some (unsupported_alg alg) _ found) in
      jwt_proven headers key_id alg d (require-some missing_key_id _ has_id)
        (require-some missing_alg _ has_alg) listed ((str_eq_iff d.jwt_algorithm alg).0 same)
        (signed key_id vm d.supported_verification_methods resolved h4)

  check_cwt_proof_by_key_id-IsProven :
      (request : CheckCwtProofRequest)
      → request.key_id ≢ []
      → check_cwt_proof_by_key_id c request issuer msg signature ≡ ok tt
      → IsProven (of_cwt request)
  unfolding check_cwt_proof_by_key_id get_supported_cwt_proof_by_alg
  check_cwt_proof_by_key_id-IsProven request named h =
      let (vm, resolved, h1) = then-ok (resolve c request.key_id issuer) _ h in
      let (d, found, h2) = then-ok (get_supported_cwt_proof_by_alg c.base request.algo) _ h1 in
      let (listed, same_alg) =
        find_first-Member (λ s. eqb_ℤ s.cwt_algorithm request.algo) c.base.supported_cwt_proofs d
          (require-some (unsupported_cwt_alg request.algo) _ found) in
      cwt_proven request d named listed (eqb_ℤ→eq d.cwt_algorithm request.algo same_alg)
        (signed request.key_id vm d.supported_verification_methods resolved h2)

  check_cwt_proof_by_cose_key-IsProven :
      (request : CheckCwtProofRequest) (expected : Str)
      → issuer ≡ expected
      → request.key_id ≡ []
      → check_cwt_proof_by_cose_key cose_key c request expected msg signature ≡ ok tt
      → IsProven (of_cwt request)
  unfolding check_cwt_proof_by_cose_key get_supported_cwt_proof_by_alg
  check_cwt_proof_by_cose_key-IsProven request (i ∷ rest) same unnamed h = cc
  check_cwt_proof_by_cose_key-IsProven request [] same unnamed h =
      let (k, read, h1) = then-ok (require bad_cose_key (cose_key request.key_material)) _ h in
      let (d, found, h2) = then-ok (get_supported_cwt_proof_by_alg c.base request.algo) _ h1 in
      let (listed, same_alg) =
        find_first-Member (λ s. eqb_ℤ s.cwt_algorithm request.algo) c.base.supported_cwt_proofs d
          (require-some (unsupported_cwt_alg request.algo) _ found) in
      let (key, made, h3) =
        then-ok
          (convert_to_public_key d.supported_verification_methods
            (record { type = codes "JsonWebKey2020"; value = []; jwk = some k.0 }))
          _ h2 in
      cose_proven request d k.0 k.1 key unnamed same (require-some bad_cose_key _ read) listed
        (eqb_ℤ→eq d.cwt_algorithm request.algo same_alg)
        (convert_to_public_key-IsKeyOf d.supported_verification_methods _ key made)
        (get_signature_verifier-IsVerified c.base k.1 msg signature key h3)

  check_cwt_proof-IsProven :
      (request : CheckCwtProofRequest)
      → check_cwt_proof cose_key c request issuer msg signature ≡ ok tt
      → IsProven (of_cwt request)
  unfolding check_cwt_proof
  check_cwt_proof-IsProven request h = elim (Bool-cases (str_eq request.key_id [])) [
    | inl unnamed ↦
        check_cwt_proof_by_cose_key-IsProven request issuer refl
          ((str_eq_iff request.key_id []).0 unnamed) (ground (arith, h, unnamed))
    | inr named ↦
        check_cwt_proof_by_key_id-IsProven request
          (λ e. absurd (ground (arith, named, (str_eq_iff request.key_id []).1 e)))
          (ground (arith, h, named))
  ]

  check_ld_proof-IsProven :
      (proof : LdProof)
      → check_ld_proof c proof issuer msg signature ≡ ok tt
      → IsProven (of_ld proof)
  unfolding check_ld_proof get_supported_proof resolve verify_with
  check_ld_proof-IsProven proof h =
      let (key_id, has_id, h1) = then-ok (require missing_key_id proof.public_key_id) _ h in
      let (vm, resolved, h2) = then-ok (resolve c key_id issuer) _ h1 in
      let (d, found, h3) = then-ok (get_supported_proof c.base proof.type) _ h2 in
      let (listed, same) =
        find_first-Member (λ s. str_eq s.proof_descriptor.proof_type proof.type)
          c.base.supported_ld_proofs d (require-some (unsupported_proof_type proof.type) _ found) in
      let methods = d.proof_descriptor.supported_verification_methods in
      let (key, made, h4) = then-ok (convert_to_public_key methods vm) _ h3 in
      ld_proven proof key_id d vm key (require-some missing_key_id _ has_id) listed
        ((str_eq_iff d.proof_descriptor.proof_type proof.type).0 same)
        (require-some invalid_key_id _ resolved) (convert_to_public_key-IsKeyOf methods vm key made)
        (by_verifier key d.proof_signature_verifier_ex h4)
    where
      by_verifier :
          (key : PublicKey) (special : Option SignatureVerifierEx)
          → elim special [
            | none ↦ verify_with c.base msg signature key
            | some verify_ex ↦ judge (verify_ex signature msg key proof)
          ]
            ≡ ok tt
          → ((special ≡ none) × IsVerified c.base key.type msg signature key)
            ⊎ ((verify_ex : SignatureVerifierEx) × (special ≡ some verify_ex)
                × (verify_ex signature msg key proof ≡ true))
      by_verifier key none done =
          inl (refl, get_signature_verifier-IsVerified c.base key.type msg signature key done)
      by_verifier key (some verify_ex) done =
          inr (verify_ex, refl, judge-valid (verify_ex signature msg key proof) done)

  -- A proof that the checker accepts, of a linked data document, a JWT or a CWT, has a supported
  -- descriptor of its type or algorithm, its key is made of the method that the resolver returns for its identifier and the
  -- expected issuer, or for a COSE key without an expected issuer of the key material, for one of the
  -- descriptor's methods, and a verifier for that key accepts the signature of the message.
  pub check-IsProven : (request : Request) → check request ≡ ok tt → IsProven request
  unfolding check
  check-IsProven (of_ld proof) h = check_ld_proof-IsProven proof h
  check-IsProven (of_jwt headers) h = check_jwt_proof-IsProven headers h
  check-IsProven (of_cwt request) h = check_cwt_proof-IsProven request h
