-- ===== src/Integrity/Models.antt =====
-- dataintegrity/models/models.go and dataintegrity/suite/suite.go: proofs, their options and the
-- suites; and the calls that change the options behind the pointer that they are given.
use vc_go.Prelude.{Bool, true, false, Option, some, none, Str, codes}
use vc_go.Prelude.Int.{ℤ}

-- What the code reads of a `did.VerificationMethod`; `key` stands for its key.
pub record VerificationMethod : Type 0 where
  pub id : Str
  pub key : Str

pub record Proof : Type 0 where
  pub id : Str
  pub type : Str
  pub crypto_suite : Str
  pub proof_purpose : Str
  pub verification_method : Str
  pub created : Str
  pub domain : Str
  pub challenge : Str
  pub proof_value : Str
  pub previous_proof : Str

-- `ProofOptions`, without the custom fields, which only suites read. `created` counts nanoseconds
-- from the zero time.
pub record ProofOptions : Type 0 where
  pub purpose : Str
  pub verification_method_id : Str
  pub verification_method : Option VerificationMethod
  pub proof_type : Str
  pub suite_type : Str
  pub domain : Str
  pub challenge : Str
  pub created : ℤ
  pub max_age : ℤ

pub data Error : Type 0 where
  missing_proof malformed_proof wrong_proof_type mismatched_purpose out_of_date : Error
  invalid_domain invalid_challenge unsupported_suite no_resolver proof_generation : Error
  vm_resolution : Error
  suite_failed : Str → Error

-- How a call ends, with the options as it leaves them.
pub data Ended (A : Type 0) : Type 0 where
  ok : A → ProofOptions → Ended A
  err : Error → ProofOptions → Ended A

infixl 5 ◌>>=◌
abbrev pub ◌>>=◌ : {A B : Type 0} → Ended A → (A → ProofOptions → Ended B) → Ended B
err cause opts >>= next = err cause opts
ok value opts >>= next = next value opts

-- `if wrong { return cause }`
abbrev pub reject : Bool → Error → ProofOptions → Ended (Unit {0})
reject true cause opts = err cause opts
reject false cause opts = ok tt opts

-- `if err != nil { return cause }`
abbrev pub require : {A : Type 0} → Option A → Error → ProofOptions → Ended A
require none cause opts = err cause opts
require (some value) cause opts = ok value opts

-- `models.DataIntegrityProof`
abbrev pub data_integrity_proof : Str
data_integrity_proof = codes "DataIntegrityProof"

-- The interfaces `suite.Verifier` and `suite.Signer`; a document is its bytes.
pub record SuiteVerifier : Type 0 where
  pub verify_proof : Str → Proof → ProofOptions → Option Error
  pub requires_created : Bool

pub record SuiteSigner : Type 0 where
  pub create_proof : Str → ProofOptions → Option Proof
  pub requires_created : Bool

-- The calls of gjson, sjson, encoding/json and time that proofs go through.
pub record Codec : Type 0 where
  pub get_proof : Str → Option Str
  pub delete_proof : Str → Option Str
  pub set_proof : Str → Str → Option Str
  pub unmarshal : Str → Option Proof
  pub marshal : Proof → Option Str
  pub parse_time : Str → Option ℤ
