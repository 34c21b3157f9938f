-- ===== src/Integrity/Signed.antt =====
-- What `AddProof` has checked of a proof that it adds.
use mathlib.Core.Path.{subst}
use vc_go.Prelude.{◌≡◌, false, ◌&&◌, ◌||◌, Str, [], Option, none, some}
use vc_go.Prelude.Dicts.{lookup}
use vc_go.Integrity.Models.{
  Proof, ProofOptions, Error, unsupported_suite, proof_generation, ok, require, SuiteSigner, Codec,
}
use vc_go.Integrity.Method.{resolve_vm}
use vc_go.Integrity.Verifier.{Signer, is_blank, differs_from, add_proof}
use vc_go.Integrity.Steps.{require-then, ended-then, reject-then}
use vc_go.Integrity.Resolution.{IsResolved, resolve_vm-IsResolved}

require-ok :
    {A : Type 0} {value : A} {o : ProofOptions} (found : Option A) (cause : Error)
    (opts : ProofOptions)
    → require found cause opts ≡ ok value o
    → (found ≡ some value) × (opts ≡ o)
require-ok none cause opts h = cc
require-ok (some v) cause opts h = (cc, cc)

-- The proof of the suite that the options name, made with the options as the call leaves them; it
-- has the standard fields, and the domain and the challenge that the options ask for.
pub record Signed (codec : Codec) (s : Signer) (doc : Str) (opts o : ProofOptions) (out : Str)
    : Type 0 where
  pub suite : SuiteSigner
  pub proof : Proof
  pub raw : Str
  pub has_suite : lookup opts.suite_type s.suites ≡ some suite
  pub resolved : IsResolved s.resolver [] opts o
  pub created_by : suite.create_proof doc o ≡ some proof
  pub has_fields :
      (is_blank proof.type || is_blank proof.proof_purpose || is_blank proof.verification_method)
      ≡ false
  pub has_created : (is_blank proof.created && suite.requires_created) ≡ false
  pub domain : differs_from o.domain proof.domain ≡ false
  pub challenge : differs_from o.challenge proof.challenge ≡ false
  pub marshals : codec.marshal proof ≡ some raw
  pub sets : codec.set_proof doc raw ≡ some out

module _ (codec : Codec) (s : Signer) (doc : Str) (opts : ProofOptions) {o : ProofOptions}
    {out : Str} where
  -- A document that `AddProof` returns is the given one with the proof that the suite of the options
  -- has made for the resolved method; the proof has the standard fields, a time where the suite
  -- requires one, and the domain and the challenge that the options ask for.
  pub add_proof-Signed : add_proof codec s doc opts ≡ ok out o → Signed codec s doc opts o out
  unfolding add_proof
  add_proof-Signed h =
      let (suite, has_suite, h1) =
        require-then (lookup opts.suite_type s.suites) unsupported_suite opts _ h in
      let (_, o2, resolving, h2) = ended-then (resolve_vm opts s.resolver []) _ h1 in
      let (proof, created_by, h3) =
        require-then (suite.create_proof doc o2) proof_generation o2 _ h2 in
      let (has_fields, h4) =
        reject-then
          (is_blank proof.type
            || is_blank proof.proof_purpose
            || is_blank proof.verification_method)
          proof_generation o2 _ h3 in
      let (has_created, h5) =
        reject-then (is_blank proof.created && suite.requires_created) proof_generation o2 _ h4 in
      let (domain, h6) =
        reject-then (differs_from o2.domain proof.domain) proof_generation o2 _ h5 in
      let (challenge, h7) =
        reject-then (differs_from o2.challenge proof.challenge) proof_generation o2 _ h6 in
      let (raw, marshals, h8) = require-then (codec.marshal proof) proof_generation o2 _ h7 in
      let (sets, same) = require-ok (codec.set_proof doc raw) proof_generation o2 h8 in
      subst (λ x. Signed codec s doc opts x out) same
        (record {
          suite = suite;
          proof = proof;
          raw = raw;
          has_suite = has_suite;
          resolved = resolve_vm-IsResolved s.resolver [] opts resolving;
          created_by = created_by;
          has_fields = has_fields;
          has_created = has_created;
          domain = domain;
          challenge = challenge;
          marshals = marshals;
          sets = sets;
        })
