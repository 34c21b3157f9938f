-- ===== src/Integrity/Method.antt =====
-- dataintegrity/signer.go: the resolution of a verification method, `resolveVM`.
use vc_go.Prelude.{List, [], ◌∷◌, Option, none, some, if◌then◌else◌, Str, str_eq, codes}
use vc_go.Prelude.Strings.{split_byte}
use vc_go.Integrity.Models.{
  VerificationMethod, ProofOptions, vm_resolution, no_resolver, Ended, ok, err, ◌>>=◌, require,
}

abbrev pub assertion_method : Str
assertion_method = codes "assertionMethod"

abbrev pub authentication : Str
authentication = codes "authentication"

abbrev pub capability_delegation : Str
capability_delegation = codes "capabilityDelegation"

abbrev pub capability_invocation : Str
capability_invocation = codes "capabilityInvocation"

-- The relationships of the did package.
pub data Relationship : Type 0 where
  general assertion_rel authentication_rel delegation_rel invocation_rel : Relationship

-- `DIDDocument.VerificationMethods(r)[r]`
abbrev pub DidDoc : Type 0
DidDoc = Relationship → List VerificationMethod

-- A resolver, or none for nil.
abbrev pub DidResolver : Type 0
DidResolver = Option (Str → Option DidDoc)

-- The second of the parts; a text without `#` has one.
abbrev pub fragment_of_parts : Str → List Str → Str
fragment_of_parts whole [] = whole
fragment_of_parts whole (p ∷ []) = p
fragment_of_parts whole (p ∷ q ∷ ps) = q

unfoldable pub vm_id_fragment_only : Str → Str
vm_id_fragment_only vm_id = fragment_of_parts vm_id (split_byte b'#' vm_id)

unfoldable pub get_vm : Str → List VerificationMethod → Option VerificationMethod
get_vm vm_id [] = none
get_vm vm_id (vm ∷ vms) =
    let rest = get_vm vm_id vms in
    if str_eq vm_id (vm_id_fragment_only vm.id) then some vm else rest

unfoldable pub get_vm_by_purpose : Str → Str → DidDoc → Option VerificationMethod
get_vm_by_purpose purpose vm_id did_doc =
    let fragment = vm_id_fragment_only vm_id in
    if str_eq purpose assertion_method
    then elim (get_vm fragment (did_doc assertion_rel)) [
      | none ↦ get_vm fragment (did_doc general)
      | some vm ↦ some vm
    ]
    else if str_eq purpose authentication
    then get_vm fragment (did_doc authentication_rel)
    else if str_eq purpose capability_delegation
    then get_vm fragment (did_doc delegation_rel)
    else if str_eq purpose capability_invocation
    then get_vm fragment (did_doc invocation_rel)
    else none

abbrev pub did_of_parts : List Str → Option Str
did_of_parts (p ∷ q ∷ []) = some p
did_of_parts [] = none
did_of_parts (p ∷ []) = none
did_of_parts (p ∷ q ∷ r ∷ ps) = none

unfoldable pub get_did_from_verification_method : Str → Option Str
get_did_from_verification_method creator = did_of_parts (split_byte b'#' creator)

unfoldable pub get_did_doc_from_verification_method : Str → (Str → Option DidDoc) → Option DidDoc
get_did_doc_from_verification_method verification_method resolve =
    elim (get_did_from_verification_method verification_method) [
      | none ↦ none
      | some id ↦ resolve id
    ]

-- `if opts.VerificationMethodID == "" { opts.VerificationMethodID = vmID }`
unfoldable pub default_id : Str → ProofOptions → ProofOptions
default_id vm_id opts = elim opts.verification_method_id [
  | [] ↦ record opts { verification_method_id = vm_id }
  | c ∷ cs ↦ opts
]

unfoldable pub find_vm : (Str → Option DidDoc) → ProofOptions → Ended (Unit {0})
find_vm resolve opts =
    require (get_did_doc_from_verification_method opts.verification_method_id resolve) vm_resolution
      opts
    >>= λ did_doc o.
        require (get_vm_by_purpose o.purpose o.verification_method_id did_doc) vm_resolution o
        >>= λ vm o'. ok tt (record o' { verification_method = some vm })

unfoldable pub resolve_vm : ProofOptions → DidResolver → Str → Ended (Unit {0})
resolve_vm opts resolver vm_id = elim opts.verification_method [
  | some vm ↦ ok tt opts
  | none ↦ elim resolver [
    | none ↦ err no_resolver (default_id vm_id opts)
    | some resolve ↦ find_vm resolve (default_id vm_id opts)
  ]
]
