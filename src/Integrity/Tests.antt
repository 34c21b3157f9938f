-- ===== src/Integrity/Tests.antt =====
-- Concrete runs of the dataintegrity package.
use vc_go.Prelude.{false, ◌≡◌, refl, true, [], ◌∷◌, none, some, codes, str_eq, if◌then◌else◌}
use vc_go.Prelude.Int.{pos}
use vc_go.Prelude.Dicts.{lookup, insert}
use vc_go.Prelude.Strings.{split_byte}
use vc_go.Integrity.Models.{
  VerificationMethod, Proof, ProofOptions, ok, data_integrity_proof, SuiteVerifier, SuiteSigner,
  Codec,
}
use vc_go.Integrity.Method.{
  assertion_method, DidResolver, vm_id_fragment_only, get_vm, get_vm_by_purpose,
  get_did_from_verification_method, get_did_doc_from_verification_method, default_id, find_vm,
  resolve_vm,
}
use vc_go.Integrity.Verifier.{
  add_types, add_suites, Verifier, Signer, new_verifier, new_signer, elapsed, seconds, is_too_old,
  default_suite, default_created, check_age, check_shape, check_limits, verify_proof, add_proof,
}
use vc_go.Integrity.Resolution.{IsResolved, resolve_vm-IsResolved}
use vc_go.Integrity.Signed.{Signed, add_proof-Signed}
use vc_go.Integrity.Accepted.{
  Accepted, verify_proof-Accepted, verify_proof-undated, verify_proof-reuse,
}

program : Unit {0}
unfolding str_eq lookup insert split_byte vm_id_fragment_only get_vm get_vm_by_purpose
    get_did_from_verification_method get_did_doc_from_verification_method default_id find_vm
    resolve_vm add_types add_suites new_verifier new_signer elapsed seconds is_too_old default_suite
    default_created check_age check_shape check_limits verify_proof add_proof
program = tt

abbrev method : VerificationMethod
method = record { id = codes "did:ex:a#k"; key = codes "key" }

abbrev proof : Proof
proof = record {
  id = [];
  type = data_integrity_proof;
  crypto_suite = codes "suite";
  proof_purpose = assertion_method;
  verification_method = method.id;
  created = codes "now";
  domain = codes "site";
  challenge = [];
  proof_value = codes "sig";
  previous_proof = [];
}

-- A proof that names another method, and one without a time.
abbrev other_proof : Proof
other_proof = record proof { verification_method = codes "did:ex:b#k" }

abbrev undated_proof : Proof
undated_proof = record proof { created = [] }

-- A document is `doc`, or the name of the proof that it has.
abbrev codec : Codec
codec = record {
  get_proof = λ doc. if str_eq doc (codes "doc") then none else some doc;
  delete_proof = λ doc. some (codes "doc");
  set_proof = λ doc raw. some (codes "doc+proof");
  unmarshal = λ raw.
      if str_eq raw (codes "other")
      then some other_proof
      else if str_eq raw (codes "undated")
      then some undated_proof
      else some proof;
  marshal = λ p. some (codes "proof");
  parse_time = λ t. if str_eq t (codes "now") then some (pos 1000) else none;
}

abbrev suite_verifier : SuiteVerifier
suite_verifier = record { verify_proof = λ doc p opts. none; requires_created = true }

abbrev suite_signer : SuiteSigner
suite_signer = record { create_proof = λ doc opts. some proof; requires_created = true }

abbrev resolver : DidResolver
resolver = some (λ id. some (λ r. method ∷ []))

abbrev verifier : Verifier
verifier = record { suites = (codes "suite", suite_verifier) ∷ []; resolver = resolver }

abbrev signer : Signer
signer = record { suites = (codes "suite", suite_signer) ∷ []; resolver = resolver }

abbrev options : ProofOptions
options = record {
  purpose = assertion_method;
  verification_method_id = [];
  verification_method = none;
  proof_type = [];
  suite_type = [];
  domain = codes "site";
  challenge = [];
  created = pos 0;
  max_age = pos 5;
}

abbrev after : ProofOptions
after = record options {
  verification_method_id = method.id;
  verification_method = some method;
  suite_type = codes "suite";
  created = pos 1000;
}

abbrev signing : ProofOptions
signing = record options { suite_type = codes "suite"; verification_method_id = method.id }

main :
    (verify_proof codec (pos 5000000000) verifier (codes "doc+proof") options ≡ ok tt after)
    × (new_verifier
          (some resolver)
          (record { types = codes "suite" ∷ []; make = some suite_verifier } ∷ [])
        ≡ some verifier)
unfolding program
main = (refl, refl)

resolve_vm-IsResolved_example :
    IsResolved resolver method.id options
      (record options { verification_method_id = method.id; verification_method = some method })
unfolding program
resolve_vm-IsResolved_example = resolve_vm-IsResolved resolver method.id options refl

verify_proof-Accepted_example :
    Accepted codec (pos 5000000000) verifier (codes "doc+proof") options after
unfolding program
verify_proof-Accepted_example =
    verify_proof-Accepted codec (pos 5000000000) verifier (codes "doc+proof") options refl

-- The second document is verified with the method of the first.
verify_proof-reuse_example : after.verification_method ≡ after.verification_method
unfolding program
verify_proof-reuse_example =
    verify_proof-reuse codec (pos 5000000000) verifier (codes "doc+proof") (codes "other") options
      after after refl refl

abbrev lenient : Verifier
lenient = record verifier {
  suites = (codes "suite", record suite_verifier { requires_created = false }) ∷ [];
}

verify_proof-undated_example :
    ¬ (verify_proof codec (pos 5000000000) lenient (codes "undated") options ≡ ok tt after)
unfolding program
verify_proof-undated_example =
    verify_proof-undated codec (pos 5000000000) lenient (codes "undated") options after
      (codes "undated") undated_proof refl refl refl refl refl

add_proof-Signed_example :
    Signed codec signer
      (codes "doc")
      signing
      (record signing { verification_method = some method })
      (codes "doc+proof")
unfolding program
add_proof-Signed_example = add_proof-Signed codec signer (codes "doc") signing refl
