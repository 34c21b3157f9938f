-- ===== src/Checker/Found.antt =====
-- What the searches of a checker find.
use mathlib.Core.Path.{subst}
use vc_go.Prelude.{
  ◌≡◌, refl, inl, inr, Bool, true, false, List, [], ◌∷◌, Option, none, some, arith, Bool-cases,
  Option-cases, Str,
}
use vc_go.Checker.Types.{
  VerificationMethod, PublicKey, SupportedVerificationMethod, SignatureVerifier, ProofCheckerBase,
  no_verifier, Error, Result, ok, err, ◌>>=◌, require,
}
use vc_go.Checker.Lookup.{
  find_first, fits_method, create_public_key, convert_to_public_key, get_signature_verifier,
}
use vc_go.Checker.Check.{judge}

pub then-ok :
    {A B : Type 0} {b : B} (first : Result A) (next : A → Result B)
    → (first >>= next) ≡ ok b
    → (a : A) × (first ≡ ok a) × (next a ≡ ok b)
then-ok (err cause) next h = cc
then-ok (ok a) next h = (a, refl, h)

pub require-some :
    {A : Type 0} (cause : Error) (o : Option A) {a : A} → require cause o ≡ ok a → o ≡ some a
require-some cause none h = cc
require-some cause (some b) h = cc

pub data Member {A : Type 0} (x : A) : List A → Type 0 where
  first : {xs : List A} → Member x (x ∷ xs)
  later : {y : A} {xs : List A} → Member x xs → Member x (y ∷ xs)

pub find_first-Member :
    {A : Type 0} (p : A → Bool) (xs : List A) (x : A)
    → find_first p xs ≡ some x
    → Member x xs × (p x ≡ true)
unfolding find_first
find_first-Member p [] x h = cc
find_first-Member p (y ∷ ys) x h = elim (Bool-cases (p y)) [
  | inl fits ↦
      let found : some y ≡ some x = rw fits at h in
      let same : y ≡ x = cc in
      (subst (λ z. Member z (y ∷ ys)) same first, subst (λ z. p z ≡ true) same fits)
  | inr other ↦
      let (member, passes) = find_first-Member p ys x (rw (other, find_first) at h) in
      (later member, passes)
]

pub judge-valid : (valid : Bool) → judge valid ≡ ok tt → valid ≡ true
unfolding judge
judge-valid true h = refl
judge-valid false h = cc

-- The key is made of the method for one of the supported methods that it fits.
pub record IsKeyOf (methods : List SupportedVerificationMethod) (vm : VerificationMethod)
    (key : PublicKey) : Type 0 where
  pub supported : SupportedVerificationMethod
  pub listed : Member supported methods
  pub fits : fits_method vm supported ≡ true
  pub made : create_public_key vm supported.kms_key_type ≡ key

pub convert_to_public_key-IsKeyOf :
    (methods : List SupportedVerificationMethod) (vm : VerificationMethod) (key : PublicKey)
    → convert_to_public_key methods vm ≡ ok key
    → IsKeyOf methods vm key
unfolding convert_to_public_key
convert_to_public_key-IsKeyOf methods vm key h =
    elim (Option-cases (find_first (fits_method vm) methods)) [
      | inl missing ↦ absurd (ground (arith, h, missing))
      | inr (supported, found) ↦
          let (listed, fits) = find_first-Member (fits_method vm) methods supported found in
          let done : ok (create_public_key vm supported.kms_key_type) ≡ ok key =
            rw (found, convert_to_public_key) at h in
          record { supported = supported; listed = listed; fits = fits; made = cc }
    ]

module _ {Document : Type 0} where
  -- A verifier of the checker that takes keys of the type accepts the signature of the message.
  pub record IsVerified (c : ProofCheckerBase Document) (key_type msg signature : Str)
      (key : PublicKey) : Type 0 where
    pub verifier : SignatureVerifier
    pub listed : Member verifier c.signature_verifiers
    pub takes_key : verifier.supported_key_type key_type ≡ true
    pub accepts : verifier.verify signature msg key ≡ true

  pub get_signature_verifier-IsVerified :
      (c : ProofCheckerBase Document) (key_type msg signature : Str) (key : PublicKey)
      → (get_signature_verifier c key_type >>= λ v. judge (v.verify signature msg key)) ≡ ok tt
      → IsVerified c key_type msg signature key
  unfolding get_signature_verifier
  get_signature_verifier-IsVerified c key_type msg signature key h =
      let (v, found, judged) = then-ok (get_signature_verifier c key_type) _ h in
      let (listed, takes) =
        find_first-Member (λ x. x.supported_key_type key_type) c.signature_verifiers v
          (require-some no_verifier _ found) in
      record {
        verifier = v;
        listed = listed;
        takes_key = takes;
        accepts = judge-valid (v.verify signature msg key) judged;
      }
