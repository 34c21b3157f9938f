-- ===== src/Integrity/Steps.antt =====
-- The steps of `VerifyProof` when none of them fails.
use mathlib.Core.Path.{subst}
use vc_go.Prelude.{
  ◌⊎◌, ◌≡◌, ◌∙◌, refl, Bool, true, false, ◌||◌, not, str_eq, str_eq_iff, Option, none, some, arith,
  Bool-cases, inl, inr,
}
use vc_go.Prelude.Int.{ℤ, pos, eqb_ℤ}
use vc_go.Integrity.Models.{
  Proof, ProofOptions, Error, malformed_proof, wrong_proof_type, Ended, ok, err, ◌>>=◌, reject,
  require, data_integrity_proof, Codec,
}
use vc_go.Integrity.Verifier.{is_blank, default_suite, default_created, check_shape}

module _ {A B : Type 0} {b : B} {o : ProofOptions} where
  pub require-then :
      (found : Option A) (cause : Error) (opts : ProofOptions) (next : A → ProofOptions → Ended B)
      → (require found cause opts >>= next) ≡ ok b o
      → (value : A) × (found ≡ some value) × (next value opts ≡ ok b o)
  require-then none cause opts next h = cc
  require-then (some value) cause opts next h = (value, refl, h)

  pub ended-then :
      (first : Ended A) (next : A → ProofOptions → Ended B)
      → (first >>= next) ≡ ok b o
      → (value : A) × (mid : ProofOptions) × (first ≡ ok value mid) × (next value mid ≡ ok b o)
  ended-then (err cause mid) next h = cc
  ended-then (ok value mid) next h = (value, mid, refl, h)

pub reject-then :
    {B : Type 0} {b : B} {o : ProofOptions} (wrong : Bool) (cause : Error) (opts : ProofOptions)
    (next : Unit {0} → ProofOptions → Ended B)
    → (reject wrong cause opts >>= next) ≡ ok b o
    → (wrong ≡ false) × (next tt opts ≡ ok b o)
reject-then true cause opts next h = cc
reject-then false cause opts next h = (refl, h)

pub reject-ok :
    {o : ProofOptions} (wrong : Bool) (cause : Error) (opts : ProofOptions)
    → reject wrong cause opts ≡ ok tt o
    → (wrong ≡ false) × (opts ≡ o)
reject-ok true cause opts h = cc
reject-ok false cause opts h = (refl, cc)

-- The options that say what is expected are the same.
pub record SameAims (before after : ProofOptions) : Type 0 where
  pub purpose : after.purpose ≡ before.purpose
  pub domain : after.domain ≡ before.domain
  pub challenge : after.challenge ≡ before.challenge
  pub max_age : after.max_age ≡ before.max_age

pub SameAims-refl : (opts : ProofOptions) → SameAims opts opts
SameAims-refl opts = record { purpose = refl; domain = refl; challenge = refl; max_age = refl }

pub SameAims-trans : (a b c : ProofOptions) → SameAims a b → SameAims b c → SameAims a c
SameAims-trans a b c p q = record {
  purpose = q.purpose ∙ p.purpose;
  domain = q.domain ∙ p.domain;
  challenge = q.challenge ∙ p.challenge;
  max_age = q.max_age ∙ p.max_age;
}

default_suite-SameAims :
    (proof : Proof) (opts : ProofOptions) → SameAims opts (default_suite proof opts)
unfolding default_suite
default_suite-SameAims proof opts = elim (Bool-cases (is_blank opts.suite_type)) [
  | inl blank ↦
      rw blank (record { purpose = refl; domain = refl; challenge = refl; max_age = refl })
  | inr given ↦ rw given (SameAims-refl opts)
]

-- The time that the options get is the proof's, unless they have one.
abbrev pub IsDated : Codec → Proof → ProofOptions → Type 0
IsDated codec proof opts =
    (eqb_ℤ opts.created (pos 0) ≡ false) ⊎ ((t : ℤ) × (codec.parse_time proof.created ≡ some t))

-- The options after the defaults for the suite and the time: neither the expectations nor the
-- verification method change.
pub record Defaulted (codec : Codec) (proof : Proof) (opts o : ProofOptions) : Type 0 where
  pub same : SameAims opts o
  pub method : o.verification_method ≡ opts.verification_method
  pub dated : IsDated codec proof opts

default_created-Defaulted :
    (codec : Codec) (proof : Proof) (opts : ProofOptions) {o : ProofOptions}
    → default_created codec proof opts ≡ ok tt o
    → Defaulted codec proof opts o
unfolding default_created
default_created-Defaulted codec proof opts h = elim (Bool-cases (eqb_ℤ opts.created (pos 0))) [
  | inl zero_time ↦
      let (created, parsed, done) =
        require-then (codec.parse_time proof.created) malformed_proof opts
          (λ created o. ok tt (record o { created = created })) (rw zero_time at h) in
      let e : record opts { created = created } ≡ _ = cc in
      subst (Defaulted codec proof opts) e (record {
        same = record { purpose = refl; domain = refl; challenge = refl; max_age = refl };
        method = refl;
        dated = inr (created, parsed);
      })
  | inr given ↦
      let done = rw given at h in
      let e : opts ≡ _ = cc in
      subst (Defaulted codec proof opts) e
        (record { same = SameAims-refl opts; method = refl; dated = inl given })
]

default_suite-keeps :
    (proof : Proof) (opts : ProofOptions)
    → ((default_suite proof opts).verification_method ≡ opts.verification_method)
      × ((default_suite proof opts).created ≡ opts.created)
unfolding default_suite
default_suite-keeps proof opts = elim (Bool-cases (is_blank opts.suite_type)) [
  | inl blank ↦ rw blank (refl, refl)
  | inr given ↦ rw given (refl, refl)
]

pub defaults-Defaulted :
    (codec : Codec) (proof : Proof) (opts : ProofOptions) {o : ProofOptions}
    → default_created codec proof (default_suite proof opts) ≡ ok tt o
    → Defaulted codec proof opts o
defaults-Defaulted codec proof opts {o} h =
    let rest = default_created-Defaulted codec proof (default_suite proof opts) h in
    let (method, created) = default_suite-keeps proof opts in
    record {
      same =
          SameAims-trans opts (default_suite proof opts) o (default_suite-SameAims proof opts)
            rest.same;
      method = rest.method ∙ method;
      dated = elim rest.dated [
        | inl given ↦ inl (subst (λ t. eqb_ℤ t (pos 0) ≡ false) created given)
        | inr parsed ↦ inr parsed
      ];
    }

pub check_shape-ok :
    (proof : Proof) (opts : ProofOptions) {o : ProofOptions}
    → check_shape proof opts ≡ ok tt o
    → (proof.type ≡ data_integrity_proof) × (opts ≡ o)
unfolding check_shape
check_shape-ok proof opts h =
    let (_, typed) =
      reject-then
        (is_blank proof.type || is_blank proof.verification_method || is_blank proof.proof_purpose)
        malformed_proof opts _ h in
    let (same, e) =
      reject-ok (not (str_eq proof.type data_integrity_proof)) wrong_proof_type opts typed in
    ((str_eq_iff proof.type data_integrity_proof).0 (ground arith), e)
