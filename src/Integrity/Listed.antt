-- ===== src/Integrity/Listed.antt =====
-- dataintegrity/signer.go: where `getVMByPurpose` and `getDIDFromVerificationMethod` look.
use mathlib.Core.Path.{subst}
use mathlib.Core.List.{Memᴰ}
use mathlib.Core.List.Memᴰ
use mathlib.Core.List.Memᴰ.{head, tail}
use vc_go.Prelude.{
  ◌≡◌, inl, inr, refl, sym, ap, ◌∙◌, false, List, [], ◌∷◌, ◌++◌, Option, none, some, arith,
  Bool-cases, Str, str_eq, str_eq_iff,
}
use vc_go.Prelude.Strings.{split_byte, contains_byte}
use vc_go.Prelude.Split.{IsSplit, split_byte-IsSplit}
use vc_go.Integrity.Models.{VerificationMethod}
use vc_go.Integrity.Method.{
  assertion_method, authentication, capability_delegation, capability_invocation, DidDoc, general,
  assertion_rel, authentication_rel, delegation_rel, invocation_rel, fragment_of_parts,
  vm_id_fragment_only, get_vm, get_vm_by_purpose, did_of_parts, get_did_from_verification_method,
}

-- The method is on the list, and its identifier has the fragment.
abbrev pub ListedAs : Str → List VerificationMethod → VerificationMethod → Type 0
ListedAs fragment vms vm = Memᴰ vm vms × (vm_id_fragment_only vm.id ≡ fragment)

-- The document lists the method under the relationship of the purpose; for an assertion it may be among
-- the general methods when no assertion method has the fragment.
pub data ListedFor (doc : DidDoc) (fragment : Str) (vm : VerificationMethod) : Str → Type 0 where
  for_assertion :
      ListedAs fragment (doc assertion_rel) vm → ListedFor doc fragment vm assertion_method
  for_assertion_general :
      ((v : VerificationMethod) → ¬ ListedAs fragment (doc assertion_rel) v)
      → ListedAs fragment (doc general) vm
      → ListedFor doc fragment vm assertion_method
  for_authentication :
      ListedAs fragment (doc authentication_rel) vm → ListedFor doc fragment vm authentication
  for_delegation :
      ListedAs fragment (doc delegation_rel) vm → ListedFor doc fragment vm capability_delegation
  for_invocation :
      ListedAs fragment (doc invocation_rel) vm → ListedFor doc fragment vm capability_invocation

get_vm-ListedAs :
    (fragment : Str) (vms : List VerificationMethod) (vm : VerificationMethod)
    → get_vm fragment vms ≡ some vm
    → ListedAs fragment vms vm
unfolding get_vm
get_vm-ListedAs fragment [] vm h = cc
get_vm-ListedAs fragment (v ∷ vms) vm h =
    elim (Bool-cases (str_eq fragment (vm_id_fragment_only v.id))) [
      | inl here ↦
          let found : some v ≡ some vm = rw here at h in
          let same : v ≡ vm = cc in
          (
            head (sym same),
            subst (λ x. vm_id_fragment_only x.id ≡ fragment) same
                (sym ((str_eq_iff fragment (vm_id_fragment_only v.id)).0 here)),
          )
      | inr other ↦
          let (listed, named) = get_vm-ListedAs fragment vms vm (rw other at h) in
          (tail listed, named)
    ]

not-ListedAs :
    (fragment : Str) (w : VerificationMethod) (vms : List VerificationMethod)
    (v : VerificationMethod)
    → str_eq fragment (vm_id_fragment_only w.id) ≡ false
    → ¬ ListedAs fragment vms v
    → ¬ ListedAs fragment (w ∷ vms) v
not-ListedAs fragment w vms v other later (head same, named) =
    let e : fragment ≡ vm_id_fragment_only w.id =
      sym named ∙ ap (λ x. vm_id_fragment_only x.id) same in
    absurd (ground (arith, (str_eq_iff fragment (vm_id_fragment_only w.id)).1 e))
not-ListedAs fragment w vms v other later (tail listed, named) = later (listed, named)

get_vm-none :
    (fragment : Str) (vms : List VerificationMethod)
    → get_vm fragment vms ≡ none
    → (v : VerificationMethod) → ¬ ListedAs fragment vms v
unfolding get_vm
get_vm-none fragment [] h v = λ listed. Memᴰ.not-nil listed.0
get_vm-none fragment (w ∷ vms) h v =
    elim (Bool-cases (str_eq fragment (vm_id_fragment_only w.id))) [
      | inl here ↦ absurd (ground arith)
      | inr other ↦ not-ListedAs fragment w vms v other (get_vm-none fragment vms (rw other at h) v)
    ]

module _ (purpose vm_id : Str) (doc : DidDoc) (vm : VerificationMethod) where
  in_assertions :
      (fragment : Str) (o : Option VerificationMethod)
      → get_vm fragment (doc assertion_rel) ≡ o
      → elim o [ none ↦ get_vm fragment (doc general) | some v ↦ some v ] ≡ some vm
      → ListedFor doc fragment vm assertion_method
  in_assertions fragment none e h =
      for_assertion_general (get_vm-none fragment (doc assertion_rel) e)
        (get_vm-ListedAs fragment (doc general) vm h)
  in_assertions fragment (some v) e h =
      for_assertion (get_vm-ListedAs fragment (doc assertion_rel) vm (e ∙ h))

  -- The method that `getVMByPurpose` returns.
  pub get_vm_by_purpose-ListedFor :
      get_vm_by_purpose purpose vm_id doc ≡ some vm
      → ListedFor doc (vm_id_fragment_only vm_id) vm purpose
  unfolding get_vm_by_purpose
  get_vm_by_purpose-ListedFor h = elim (Bool-cases (str_eq purpose assertion_method)) [
    | inl asserts ↦
        rw ((str_eq_iff purpose assertion_method).0 asserts)
          (in_assertions (vm_id_fragment_only vm_id) _ refl (rw asserts at h))
    | inr n0 ↦ elim (Bool-cases (str_eq purpose authentication)) [
      | inl here ↦
          rw ((str_eq_iff purpose authentication).0 here)
            (for_authentication (get_vm-ListedAs _ _ vm (rw (n0, here) at h)))
      | inr n1 ↦ elim (Bool-cases (str_eq purpose capability_delegation)) [
        | inl here ↦
            rw ((str_eq_iff purpose capability_delegation).0 here)
              (for_delegation (get_vm-ListedAs _ _ vm (rw (n0, n1, here) at h)))
        | inr n2 ↦ elim (Bool-cases (str_eq purpose capability_invocation)) [
          | inl here ↦
              rw ((str_eq_iff purpose capability_invocation).0 here)
                (for_invocation (get_vm-ListedAs _ _ vm (rw (n0, n1, n2, here) at h)))
          | inr n3 ↦ absurd (ground (arith, n0, n1, n2, n3, h))
        ]
      ]
    ]
  ]

-- A method's identifier with a DID is the DID, `#` and the fragment, neither of which has a `#`.
pub get_did-parts :
    (vm_id did : Str)
    → get_did_from_verification_method vm_id ≡ some did
    → (vm_id ≡ did ++ (b'#' ∷ vm_id_fragment_only vm_id))
      × (contains_byte b'#' did ≡ false)
      × (contains_byte b'#' (vm_id_fragment_only vm_id) ≡ false)
unfolding get_did_from_verification_method vm_id_fragment_only
get_did-parts vm_id did h = of_parts (split_byte b'#' vm_id) (split_byte-IsSplit b'#' vm_id) h
  where
    of_parts :
        (ps : List Str)
        → IsSplit b'#' vm_id ps
        → did_of_parts ps ≡ some did
        → (vm_id ≡ did ++ (b'#' ∷ fragment_of_parts vm_id ps))
          × (contains_byte b'#' did ≡ false)
          × (contains_byte b'#' (fragment_of_parts vm_id ps) ≡ false)
    of_parts (p ∷ q ∷ []) (rest, same, plain, (last, plain_last)) e =
        let is_did : p ≡ did = cc in rw (← is_did) (rw last at same, plain, plain_last)
    of_parts [] split e = cc
    of_parts (p ∷ []) split e = cc
    of_parts (p ∷ q ∷ r ∷ ps) split e = cc
