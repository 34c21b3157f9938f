-- ===== src/Integrity/Verifier.antt =====
-- dataintegrity/verifier.go and dataintegrity/signer.go: `Verifier.VerifyProof`, `Signer.AddProof` and
-- the constructors of both.
use vc_go.Prelude.{
  ℕ, ◌+◌, ◌-◌, ◌*◌, ◌%◌, ◌^◌, Bool, true, false, ◌&&◌, ◌||◌, not, List, [], ◌∷◌, Option, none, some,
  if◌then◌else◌, ltb, leb, Str, str_eq,
}
use vc_go.Prelude.Int.{ℤ, pos, negsuc, pos_part, neg_part, ltb_ℤ, eqb_ℤ}
use vc_go.Prelude.Dicts.{Dict, lookup, insert}
use vc_go.Integrity.Models.{
  Proof, ProofOptions, Error, missing_proof, malformed_proof, wrong_proof_type, mismatched_purpose,
  out_of_date, invalid_domain, invalid_challenge, unsupported_suite, proof_generation, Ended, ok,
  err, ◌>>=◌, reject, require, data_integrity_proof, SuiteVerifier, SuiteSigner, Codec,
}
use vc_go.Integrity.Method.{DidResolver, resolve_vm}

-- A suite's initializer: its types, and the suite or none for an error.
pub record Initializer (S : Type 0) : Type 0 where
  pub types : List Str
  pub make : Option S

-- The loop over the types of one initializer; the suite is made again for each new type.
unfoldable pub add_types : {S : Type 0} → Option S → List Str → Dict S → Option (Dict S)
add_types made [] suites = some suites
add_types made (t ∷ ts) suites = elim (lookup t suites) [
  | some known ↦ add_types made ts suites
  | none ↦ elim made [ none ↦ none | some suite ↦ add_types made ts (insert t suite suites) ]
]

-- The loops of `NewVerifier` and of `NewSigner`; none for an error.
unfoldable pub add_suites : {S : Type 0} → List (Initializer S) → Dict S → Option (Dict S)
add_suites [] suites = some suites
add_suites (i ∷ is) suites = elim (add_types i.make i.types suites) [
  | none ↦ none
  | some suites' ↦ add_suites is suites'
]

pub record Verifier : Type 0 where
  pub suites : Dict SuiteVerifier
  pub resolver : DidResolver

pub record Signer : Type 0 where
  pub suites : Dict SuiteSigner
  pub resolver : DidResolver

-- `opts` is nil or holds a resolver, which may be nil.
abbrev pub given_resolver : Option DidResolver → DidResolver
given_resolver none = none
given_resolver (some resolver) = resolver

unfoldable pub new_verifier :
    Option DidResolver → List (Initializer SuiteVerifier) → Option Verifier
new_verifier opts is = elim (add_suites is []) [
  | none ↦ none
  | some suites ↦ some (record { suites = suites; resolver = given_resolver opts })
]

unfoldable pub new_signer : Option DidResolver → List (Initializer SuiteSigner) → Option Signer
new_signer opts is = elim (add_suites is []) [
  | none ↦ none
  | some suites ↦ some (record { suites = suites; resolver = given_resolver opts })
]

-- The texts that are not empty, and a limit that is off when it is empty.
abbrev pub is_blank : Str → Bool
is_blank [] = true
is_blank (c ∷ cs) = false

abbrev pub differs_from : Str → Str → Bool
differs_from wanted found = not (is_blank wanted) && not (str_eq wanted found)

-- The difference of two times, which `Sub` keeps within an int64.
abbrev pub difference : ℕ → ℕ → ℤ
difference m n = if leb n m then pos (m - n) else negsuc (n - m - 1)

abbrev pub saturate : ℤ → ℤ
saturate (pos n) = if ltb n (2 ^ 63) then pos n else pos (2 ^ 63 - 1)
saturate (negsuc n) = if ltb n (2 ^ 63) then negsuc n else negsuc (2 ^ 63 - 1)

unfoldable pub elapsed : ℤ → ℤ → ℤ
elapsed now created =
    saturate (difference (pos_part now + neg_part created) (pos_part created + neg_part now))

-- `time.Second*time.Duration(n)` for n above zero, an int64 that wraps around.
unfoldable pub seconds : ℕ → ℤ
seconds n =
    let product = 10 ^ 9 * n % 2 ^ 64 in
    if ltb product (2 ^ 63) then pos product else negsuc (2 ^ 64 - product - 1)

-- `opts.MaxAge > 0` and the age above it.
unfoldable pub is_too_old : ℤ → ℤ → ℤ → Bool
is_too_old (negsuc n) now created = false
is_too_old (pos n) now created = ltb 0 n && ltb_ℤ (seconds n) (elapsed now created)

-- `if opts.SuiteType == "" { opts.SuiteType = proof.CryptoSuite }`
unfoldable pub default_suite : Proof → ProofOptions → ProofOptions
default_suite proof opts =
    if is_blank opts.suite_type then record opts { suite_type = proof.crypto_suite } else opts

-- `if opts.Created.IsZero() { ... }`
unfoldable pub default_created : Codec → Proof → ProofOptions → Ended (Unit {0})
default_created codec proof opts =
    if eqb_ℤ opts.created (pos 0)
    then (require (codec.parse_time proof.created) malformed_proof opts >>= λ created o.
        ok tt (record o { created = created }))
    else ok tt opts

unfoldable pub check_age : Codec → ℤ → Proof → ProofOptions → Ended (Unit {0})
check_age codec now proof opts =
    if is_blank proof.created
    then ok tt opts
    else (require (codec.parse_time proof.created) malformed_proof opts >>= λ created o.
        reject (is_too_old o.max_age now created) out_of_date o)

-- The checks of the proof alone.
unfoldable pub check_shape : Proof → ProofOptions → Ended (Unit {0})
check_shape proof opts =
    reject
      (is_blank proof.type || is_blank proof.verification_method || is_blank proof.proof_purpose)
      malformed_proof opts
    >>= λ _ o. reject (not (str_eq proof.type data_integrity_proof)) wrong_proof_type o

-- What follows the suite's verification, whose error counts last.
unfoldable pub check_limits : Codec → ℤ → Proof → Option Error → ProofOptions → Ended (Unit {0})
check_limits codec now proof verify_result opts = check_age codec now proof opts >>= λ _ o1.
    reject (differs_from o1.domain proof.domain) invalid_domain o1 >>= λ _ o2.
    reject (differs_from o2.challenge proof.challenge) invalid_challenge o2 >>= λ _ o3.
    elim verify_result [ none ↦ ok tt o3 | some e ↦ err e o3 ]

unfoldable pub verify_proof : Codec → ℤ → Verifier → Str → ProofOptions → Ended (Unit {0})
verify_proof codec now v doc opts = require (codec.get_proof doc) missing_proof opts >>= λ raw o1.
    require (codec.unmarshal raw) malformed_proof o1 >>= λ proof o2.
    check_shape proof o2 >>= λ _ o3.
    require (lookup proof.crypto_suite v.suites) unsupported_suite o3 >>= λ suite o4.
    reject (suite.requires_created && is_blank proof.created) malformed_proof
      (default_suite proof o4)
    >>= λ _ o5. default_created codec proof o5 >>= λ _ o6.
        reject (not (str_eq proof.proof_purpose o6.purpose)) mismatched_purpose o6 >>= λ _ o7.
        require (codec.delete_proof doc) malformed_proof o7 >>= λ unsecured o8.
        resolve_vm o8 v.resolver proof.verification_method >>= λ _ o9.
        check_limits codec now proof (suite.verify_proof unsecured proof o9) o9

-- `AddProof`: the document with its proof.
unfoldable pub add_proof : Codec → Signer → Str → ProofOptions → Ended Str
add_proof codec s doc opts =
    require (lookup opts.suite_type s.suites) unsupported_suite opts >>= λ suite o1.
    resolve_vm o1 s.resolver [] >>= λ _ o2.
    require (suite.create_proof doc o2) proof_generation o2 >>= λ proof o3.
    reject
      (is_blank proof.type || is_blank proof.proof_purpose || is_blank proof.verification_method)
      proof_generation o3
    >>= λ _ o4.
        reject (is_blank proof.created && suite.requires_created) proof_generation o4 >>= λ _ o5.
        reject (differs_from o5.domain proof.domain) proof_generation o5 >>= λ _ o6.
        reject (differs_from o6.challenge proof.challenge) proof_generation o6 >>= λ _ o7.
        require (codec.marshal proof) proof_generation o7 >>= λ raw o8.
        require (codec.set_proof doc raw) proof_generation o8
