-- ===== src/Checker/Lookup.antt =====
-- proof/checker/checker.go: the searches in the checker's tables, and the choice of the public key.
use vc_go.Prelude.{Bool, not, ◌&&◌, List, [], ◌∷◌, Option, none, some, if◌then◌else◌, Str, str_eq}
use vc_go.Prelude.Int.{ℤ, eqb_ℤ}
use vc_go.Checker.Types.{
  Jwk, VerificationMethod, PublicKey, SupportedVerificationMethod, SignatureVerifier,
  JwtProofDescriptor, LdCheckDescriptor, ProofCheckerBase, unsupported_method, no_verifier,
  unsupported_proof_type, unsupported_alg, unsupported_cwt_alg, Result, ok, err, require,
}

-- The first element that passes the test.
unfoldable pub find_first : {A : Type 0} → (A → Bool) → List A → Option A
find_first p [] = none
find_first p (x ∷ xs) = if p x then some x else find_first p xs

-- The tests of the loop that a method passes over.
unfoldable pub fits_jwk : SupportedVerificationMethod → Option Jwk → Bool
fits_jwk supported none = not supported.require_jwk
fits_jwk supported (some jwk) =
    str_eq supported.jwk_key_type jwk.kty && str_eq supported.jwk_curve jwk.crv

unfoldable pub fits_method : VerificationMethod → SupportedVerificationMethod → Bool
fits_method vm supported =
    str_eq supported.verification_method_type vm.type && fits_jwk supported vm.jwk

unfoldable pub create_public_key : VerificationMethod → Str → PublicKey
create_public_key vm key_type = elim (vm.jwk) [
  | none ↦ record { type = key_type; bytes_key = some vm.value; jwk = none }
  | some jwk ↦ record { type = key_type; bytes_key = none; jwk = some jwk }
]

unfoldable pub convert_to_public_key :
    List SupportedVerificationMethod → VerificationMethod → Result PublicKey
convert_to_public_key supported_methods vm = elim (find_first (fits_method vm) supported_methods) [
  | none ↦ err unsupported_method
  | some supported ↦ ok (create_public_key vm supported.kms_key_type)
]

module _ {Document : Type 0} (c : ProofCheckerBase Document) where
  unfoldable pub get_supported_proof : Str → Result (LdCheckDescriptor Document)
  get_supported_proof proof_type =
      require (unsupported_proof_type proof_type)
        (find_first (λ s. str_eq s.proof_descriptor.proof_type proof_type) c.supported_ld_proofs)

  unfoldable pub get_supported_proof_by_alg : Str → Result JwtProofDescriptor
  get_supported_proof_by_alg jwt_alg =
      require (unsupported_alg jwt_alg)
        (find_first (λ s. str_eq s.jwt_algorithm jwt_alg) c.supported_jwt_proofs)

  unfoldable pub get_supported_cwt_proof_by_alg : ℤ → Result JwtProofDescriptor
  get_supported_cwt_proof_by_alg cwt_alg =
      require (unsupported_cwt_alg cwt_alg)
        (find_first (λ s. eqb_ℤ s.cwt_algorithm cwt_alg) c.supported_cwt_proofs)

  unfoldable pub get_signature_verifier : Str → Result SignatureVerifier
  get_signature_verifier key_type =
      require no_verifier (find_first (λ v. v.supported_key_type key_type) c.signature_verifiers)
