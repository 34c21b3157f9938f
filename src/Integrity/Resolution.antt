-- ===== src/Integrity/Resolution.antt =====
-- What `resolveVM` leaves in the options when it succeeds.
use mathlib.Core.Path.{subst}
use vc_go.Prelude.{
  ◌⊎◌, ◌≢◌, ◌++◌, false, ℕ, ◌≡◌, ◌∙◌, refl, sym, Str, [], ◌∷◌, Option, none, some, arith,
  Option-cases, inl, inr,
}
use vc_go.Integrity.Models.{VerificationMethod, ProofOptions, vm_resolution, ok, ◌>>=◌, require}
use vc_go.Integrity.Listed.{ListedFor, get_vm_by_purpose-ListedFor, get_did-parts}
use vc_go.Prelude.Strings.{contains_byte}
use vc_go.Integrity.Method.{
  get_did_from_verification_method, vm_id_fragment_only, DidResolver, DidDoc, default_id, find_vm,
  get_did_doc_from_verification_method, get_vm_by_purpose, resolve_vm,
}
use vc_go.Integrity.Steps.{require-then, SameAims, SameAims-refl, SameAims-trans}

Str-cases : (s : Str) → (s ≡ []) ⊎ ((c : ℕ) × (cs : Str) × (s ≡ c ∷ cs))
Str-cases [] = inl refl
Str-cases (c ∷ cs) = inr (c, cs, refl)

default_id-SameAims : (vm_id : Str) (opts : ProofOptions) → SameAims opts (default_id vm_id opts)
unfolding default_id
default_id-SameAims vm_id opts = elim (Str-cases opts.verification_method_id) [
  | inl blank ↦
      rw blank (record { purpose = refl; domain = refl; challenge = refl; max_age = refl })
  | inr (c, cs, given) ↦
      rw given (record { purpose = refl; domain = refl; challenge = refl; max_age = refl })
]

-- The identifier that is resolved: the options' own, or else the given one.
abbrev pub IsMethodId : Str → ProofOptions → Str → Type 0
IsMethodId vm_id opts id =
    ((opts.verification_method_id ≢ []) × (id ≡ opts.verification_method_id))
    ⊎ ((opts.verification_method_id ≡ []) × (id ≡ vm_id))

-- The DID document that the resolver has for the DID before the `#` of the identifier lists the method
-- for the purpose, under the fragment after it.
pub record IsFound (resolver : DidResolver) (purpose id : Str) (vm : VerificationMethod)
    : Type 0 where
  pub resolve : Str → Option DidDoc
  pub did : Str
  pub fragment : Str
  pub doc : DidDoc
  pub given : resolver ≡ some resolve
  pub parts : id ≡ did ++ (b'#' ∷ fragment)
  pub plain_did : contains_byte b'#' did ≡ false
  pub plain_fragment : contains_byte b'#' fragment ≡ false
  pub has_doc : resolve did ≡ some doc
  pub listed : ListedFor doc fragment vm purpose

-- The verification method is the one that the options had, or one that the DID document of the
-- method's identifier lists.
pub record IsResolved (resolver : DidResolver) (vm_id : Str) (opts o : ProofOptions) : Type 0 where
  pub same : SameAims opts o
  pub vm : VerificationMethod
  pub chosen : o.verification_method ≡ some vm
  pub source :
      ((opts.verification_method ≡ some vm) × (o ≡ opts))
      ⊎ ((opts.verification_method ≡ none)
          × IsMethodId vm_id opts o.verification_method_id
          × IsFound resolver opts.purpose o.verification_method_id vm)

default_id-IsMethodId :
    (vm_id : Str) (opts : ProofOptions)
    → IsMethodId vm_id opts (default_id vm_id opts).verification_method_id
unfolding default_id
default_id-IsMethodId vm_id opts = elim (Str-cases opts.verification_method_id) [
  | inl blank ↦ rw blank (inr (refl, refl))
  | inr (c, cs, given) ↦ rw given (inl (λ e. cc, refl))
]

find_vm-IsFound :
    (resolver : DidResolver) (resolve : Str → Option DidDoc) (purpose id : Str) (doc : DidDoc)
    (vm : VerificationMethod)
    → resolver ≡ some resolve
    → get_did_doc_from_verification_method id resolve ≡ some doc
    → get_vm_by_purpose purpose id doc ≡ some vm
    → IsFound resolver purpose id vm
unfolding get_did_doc_from_verification_method
find_vm-IsFound resolver resolve purpose id doc vm given has_doc has_vm =
    elim (Option-cases (get_did_from_verification_method id)) [
      | inl missing ↦ absurd (ground (arith, missing, has_doc))
      | inr (did, named) ↦
          let (parts, plain_did, plain_fragment) = get_did-parts id did named in
          record {
            resolve = resolve;
            did = did;
            fragment = vm_id_fragment_only id;
            doc = doc;
            given = given;
            parts = parts;
            plain_did = plain_did;
            plain_fragment = plain_fragment;
            has_doc = rw (get_did_doc_from_verification_method, named) at has_doc;
            listed = get_vm_by_purpose-ListedFor purpose id doc vm has_vm;
          }
    ]

module _ (resolver : DidResolver) (vm_id : Str) (opts : ProofOptions) where
  resolve_vm_known :
      (vm : VerificationMethod)
      → opts.verification_method ≡ some vm
      → resolve_vm opts resolver vm_id ≡ ok tt opts
  unfolding resolve_vm
  resolve_vm_known vm there = ground arith

  resolve_vm_fails :
      {o : ProofOptions}
      → opts.verification_method ≡ none
      → resolver ≡ none
      → resolve_vm opts resolver vm_id ≡ ok tt o
      → ⊥
  unfolding resolve_vm
  resolve_vm_fails missing nobody h = ground arith

  resolve_vm_finds :
      (resolve : Str → Option DidDoc)
      → opts.verification_method ≡ none
      → resolver ≡ some resolve
      → resolve_vm opts resolver vm_id ≡ find_vm resolve (default_id vm_id opts)
  unfolding resolve_vm
  resolve_vm_finds resolve missing given = ground arith

module _ (resolver : DidResolver) (vm_id : Str) (opts : ProofOptions) {o : ProofOptions} where
  find_vm-IsResolved :
      (resolve : Str → Option DidDoc)
      → opts.verification_method ≡ none
      → resolver ≡ some resolve
      → find_vm resolve (default_id vm_id opts) ≡ ok tt o
      → IsResolved resolver vm_id opts o
  unfolding find_vm
  find_vm-IsResolved resolve missing given h =
      let (doc, has_doc, rest) =
        require-then (get_did_doc_from_verification_method d.verification_method_id resolve)
          vm_resolution d
          (λ did_doc o.
            require (get_vm_by_purpose o.purpose o.verification_method_id did_doc) vm_resolution o
            >>= λ vm o'. ok tt (record o' { verification_method = some vm }))
          h in
      let (vm, has_vm, done) =
        require-then (get_vm_by_purpose d.purpose d.verification_method_id doc) vm_resolution d
          (λ vm o'. ok tt (record o' { verification_method = some vm })) rest in
      let e : record d { verification_method = some vm } ≡ o = cc in
      record {
        same = SameAims-trans opts d o (default_id-SameAims vm_id opts) (
            subst (SameAims d) e
              (record { purpose = refl; domain = refl; challenge = refl; max_age = refl }));
        vm = vm;
        chosen = subst (λ x. x.verification_method ≡ some vm) e refl;
        source = inr (
          missing,
          subst (λ x. IsMethodId vm_id opts x.verification_method_id) e
              (default_id-IsMethodId vm_id opts),
          subst (λ x. IsFound resolver opts.purpose x.verification_method_id vm) e
              (find_vm-IsFound resolver resolve opts.purpose d.verification_method_id doc vm given
                has_doc
                (subst (λ p. get_vm_by_purpose p d.verification_method_id doc ≡ some vm)
                  (default_id-SameAims vm_id opts).purpose has_vm)),
        );
      }
    where
      d : ProofOptions
      d = default_id vm_id opts

  -- When `resolveVM` succeeds the options keep what they expect and have a verification method. It is
  -- the one that they had, and they are as before; or it is resolved by the identifier of the options,
  -- or without one there by the given one: the resolver has a DID document for the DID before the `#`
  -- of it, which lists the method for the purpose under the fragment after it, or for an assertion
  -- without such a method among the general ones.
  pub resolve_vm-IsResolved :
      resolve_vm opts resolver vm_id ≡ ok tt o → IsResolved resolver vm_id opts o
  resolve_vm-IsResolved h = elim (Option-cases opts.verification_method) [
    | inl missing ↦ elim (Option-cases resolver) [
      | inl nobody ↦ absurd (resolve_vm_fails resolver vm_id opts missing nobody h)
      | inr (resolve, given) ↦
          find_vm-IsResolved resolve missing given
            (sym (resolve_vm_finds resolver vm_id opts resolve missing given) ∙ h)
    ]
    | inr (vm, there) ↦
        let known = resolve_vm_known resolver vm_id opts vm there in
        let e : opts ≡ o = cc in
        record {
          same = subst (SameAims opts) e (SameAims-refl opts);
          vm = vm;
          chosen = subst (λ x. x.verification_method ≡ some vm) e there;
          source = inl (there, sym e);
        }
  ]
