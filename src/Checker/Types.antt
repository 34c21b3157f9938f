-- ===== src/Checker/Types.antt =====
-- proof/checker/checker.go, proof/descriptor.go, vermethod and crypto-ext/pubkey: keys, descriptors and
-- the checker's tables.
use vc_go.Prelude.{Bool, List, [], ◌∷◌, ◌++◌, map, Option, none, some, Str}
use vc_go.Prelude.Int.{ℤ}

-- What is read of `jwk.JWK`, with the key itself.
pub record Jwk : Type 0 where
  pub kty : Str
  pub crv : Str
  pub key : Str

pub record VerificationMethod : Type 0 where
  pub type : Str
  pub value : Str
  pub jwk : Option Jwk

pub record PublicKey : Type 0 where
  pub type : Str
  pub bytes_key : Option Str
  pub jwk : Option Jwk

pub record SupportedVerificationMethod : Type 0 where
  pub verification_method_type : Str
  pub kms_key_type : Str
  pub jwk_key_type : Str
  pub jwk_curve : Str
  pub require_jwk : Bool

-- `proof.Proof`: its type, and its `PublicKeyID` where it has one.
pub record LdProof : Type 0 where
  pub type : Str
  pub public_key_id : Option Str

-- What is read of `jose.Headers`.
pub record JwtHeaders : Type 0 where
  pub key_id : Option Str
  pub algorithm : Option Str

pub record CheckCwtProofRequest : Type 0 where
  pub key_id : Str
  pub key_material : Str
  pub algo : ℤ

-- A verifier of signatures, which takes the signature and the message.
pub record SignatureVerifier : Type 0 where
  pub supported_key_type : Str → Bool
  pub verify : Str → Str → PublicKey → Bool

abbrev pub SignatureVerifierEx : Type 0
SignatureVerifierEx = Str → Str → PublicKey → LdProof → Bool

pub record LdProofDescriptor (Document : Type 0) : Type 0 where
  pub get_canonical_document : Document → Option Str
  pub get_digest : Str → Str
  pub proof_type : Str
  pub supported_verification_methods : List SupportedVerificationMethod

pub record JwtProofDescriptor : Type 0 where
  pub jwt_algorithm : Str
  pub cwt_algorithm : ℤ
  pub supported_verification_methods : List SupportedVerificationMethod

pub record LdCheckDescriptor (Document : Type 0) : Type 0 where
  pub proof_descriptor : LdProofDescriptor Document
  pub proof_signature_verifier_ex : Option SignatureVerifierEx

-- `ProofCheckerBase`; a JWT or CWT check descriptor is the proof descriptor alone.
pub record ProofCheckerBase (Document : Type 0) : Type 0 where
  pub supported_ld_proofs : List (LdCheckDescriptor Document)
  pub supported_jwt_proofs : List JwtProofDescriptor
  pub supported_cwt_proofs : List JwtProofDescriptor
  pub signature_verifiers : List SignatureVerifier

-- The resolver takes the identifier of a method and the issuer that is expected.
pub record ProofChecker (Document : Type 0) : Type 0 where
  pub base : ProofCheckerBase Document
  pub resolve_verification_method : Str → Str → Option VerificationMethod

pub record EmbeddedVmProofChecker (Document : Type 0) : Type 0 where
  pub base : ProofCheckerBase Document
  pub vm : VerificationMethod

pub data Error : Type 0 where
  missing_key_id missing_alg invalid_key_id unsupported_method no_verifier bad_signature : Error
  issuer_not_supported bad_cose_key not_canonical : Error
  unsupported_proof_type unsupported_alg : Str → Error
  unsupported_cwt_alg : ℤ → Error

pub data Result (A : Type 0) : Type 0 where
  ok : A → Result A
  err : Error → Result A

infixl 5 ◌>>=◌
abbrev pub ◌>>=◌ : {A B : Type 0} → Result A → (A → Result B) → Result B
ok value >>= next = next value
err cause >>= next = err cause

-- The value of an option, or the error.
abbrev pub require : {A : Type 0} → Error → Option A → Result A
require cause none = err cause
require cause (some a) = ok a

-- The options of `New`.
abbrev pub Opt : Type 0 → Type 0
Opt Document = ProofCheckerBase Document → ProofCheckerBase Document

module _ {Document : Type 0} where
  abbrev pub plain_check : LdProofDescriptor Document → LdCheckDescriptor Document
  plain_check d = record { proof_descriptor = d; proof_signature_verifier_ex = none }

  unfoldable pub with_ld_proof_types : List (LdProofDescriptor Document) → Opt Document
  with_ld_proof_types proof_descs c = record c {
    supported_ld_proofs = c.supported_ld_proofs ++ map plain_check proof_descs;
  }

  unfoldable pub with_ld_proof_type_ex :
      LdProofDescriptor Document → SignatureVerifierEx → Opt Document
  with_ld_proof_type_ex proof_desc verifier c = record c {
    supported_ld_proofs =
        c.supported_ld_proofs
        ++ record { proof_descriptor = proof_desc; proof_signature_verifier_ex = some verifier }
          ∷ [];
  }

  unfoldable pub with_jwt_alg : List JwtProofDescriptor → Opt Document
  with_jwt_alg proof_descs c = record c {
    supported_jwt_proofs = c.supported_jwt_proofs ++ proof_descs;
  }

  unfoldable pub with_cwt_alg : List JwtProofDescriptor → Opt Document
  with_cwt_alg proof_descs c = record c {
    supported_cwt_proofs = c.supported_cwt_proofs ++ proof_descs;
  }

  unfoldable pub with_signature_verifiers : List SignatureVerifier → Opt Document
  with_signature_verifiers verifiers c = record c {
    signature_verifiers = c.signature_verifiers ++ verifiers;
  }

  unfoldable pub apply_opts : List (Opt Document) → Opt Document
  apply_opts [] c = c
  apply_opts (opt ∷ opts) c = apply_opts opts (opt c)

  abbrev pub empty_base : ProofCheckerBase Document
  empty_base = record {
    supported_ld_proofs = [];
    supported_jwt_proofs = [];
    supported_cwt_proofs = [];
    signature_verifiers = [];
  }
