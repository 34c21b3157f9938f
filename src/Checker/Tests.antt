-- ===== src/Checker/Tests.antt =====
-- Concrete runs of proof/checker.
use vc_go.Prelude.{ℕ, ◌≡◌, refl, true, [], ◌∷◌, ◌++◌, none, some, if◌then◌else◌, codes, str_eq}
use vc_go.Prelude.Int.{negsuc}
use vc_go.Checker.Types.{
  VerificationMethod, SupportedVerificationMethod, JwtHeaders, SignatureVerifier,
  JwtProofDescriptor, ProofChecker, ok, err, bad_signature, with_jwt_alg, with_signature_verifiers,
  apply_opts,
}
use vc_go.Checker.Lookup.{
  find_first, fits_jwk, fits_method, create_public_key, convert_to_public_key,
  get_supported_proof_by_alg, get_signature_verifier,
}
use vc_go.Checker.Check.{judge, new_checker, verify_with, resolve, check_jwt_proof}
use vc_go.Checker.Accepted.{of_jwt, check, IsProven, check-IsProven}

program : Unit {0}
unfolding str_eq with_jwt_alg with_signature_verifiers apply_opts find_first fits_jwk fits_method
    create_public_key convert_to_public_key get_supported_proof_by_alg get_signature_verifier judge
    new_checker verify_with resolve check_jwt_proof check
program = tt

abbrev supported : SupportedVerificationMethod
supported = record {
  verification_method_type = codes "JsonWebKey2020";
  kms_key_type = codes "ED25519";
  jwk_key_type = codes "OKP";
  jwk_curve = codes "Ed25519";
  require_jwk = true;
}

abbrev eddsa : JwtProofDescriptor
eddsa = record {
  jwt_algorithm = codes "EdDSA";
  cwt_algorithm = negsuc 7;
  supported_verification_methods = supported ∷ [];
}

-- A signature is the message behind the type of the key.
abbrev verifier : SignatureVerifier
verifier = record {
  supported_key_type = λ t. str_eq t (codes "ED25519");
  verify = λ sig msg key. str_eq sig (key.type ++ msg);
}

abbrev method : VerificationMethod
method = record {
  type = codes "JsonWebKey2020";
  value = [];
  jwk = some (record { kty = codes "OKP"; crv = codes "Ed25519"; key = [] });
}

abbrev checker : ProofChecker ℕ
checker =
    new_checker (λ key_id issuer. if str_eq issuer (codes "did:a") then some method else none)
      (with_jwt_alg (eddsa ∷ []) ∷ with_signature_verifiers (verifier ∷ []) ∷ [])

abbrev headers : JwtHeaders
headers = record { key_id = some (codes "did:a#k"); algorithm = some (codes "EdDSA") }

checked :
    check (λ s. none) checker (codes "did:a") (codes "m") (codes "ED25519m") (of_jwt headers)
    ≡ ok tt
unfolding program
checked = refl

forged :
    check (λ s. none) checker (codes "did:a") (codes "m") (codes "ED25519n") (of_jwt headers)
    ≡ err bad_signature
unfolding program
forged = refl

check-IsProven_example :
    IsProven (λ s. none) checker (codes "did:a") (codes "m") (codes "ED25519m") (of_jwt headers)
check-IsProven_example =
    check-IsProven (λ s. none) checker (codes "did:a") (codes "m") (codes "ED25519m")
      (of_jwt headers) checked
