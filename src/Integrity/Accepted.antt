-- ===== src/Integrity/Accepted.antt =====
-- What a data integrity proof that `VerifyProof` accepts has gone through.
use mathlib.Core.Path.{subst}
use vc_go.Prelude.{
  ap, [], ◌≡◌, ◌∙◌, refl, sym, ◌⊎◌, inl, inr, true, false, ◌&&◌, not, Str, str_eq, str_eq_iff,
  Option, none, some, arith, Bool-cases,
}
use vc_go.Prelude.Int.{ℤ, pos, eqb_ℤ}
use vc_go.Prelude.Dicts.{lookup}
use vc_go.Integrity.Models.{
  Proof, ProofOptions, Error, malformed_proof, missing_proof, unsupported_suite, mismatched_purpose,
  out_of_date, invalid_domain, invalid_challenge, ok, err, data_integrity_proof, SuiteVerifier,
  Codec,
}
use vc_go.Integrity.Method.{resolve_vm}
use vc_go.Integrity.Verifier.{
  Verifier, is_blank, differs_from, is_too_old, default_suite, default_created, check_age,
  check_shape, check_limits, verify_proof,
}
use vc_go.Integrity.Resolution.{IsResolved, resolve_vm-IsResolved}
use vc_go.Integrity.Steps.{
  require-then, ended-then, reject-then, reject-ok, SameAims, SameAims-trans, Defaulted,
  defaults-Defaulted, check_shape-ok,
}

-- The proof's time of creation, if it has one, is a time that is not too old.
abbrev pub InTime : Codec → ℤ → Proof → ProofOptions → Type 0
InTime codec now proof opts =
    (is_blank proof.created ≡ true)
    ⊎ ((created : ℤ) × (codec.parse_time proof.created ≡ some created)
        × (is_too_old opts.max_age now created ≡ false))

check_age-InTime :
    (codec : Codec) (now : ℤ) (proof : Proof) (opts : ProofOptions) {o : ProofOptions}
    → check_age codec now proof opts ≡ ok tt o
    → InTime codec now proof opts × (opts ≡ o)
unfolding check_age
check_age-InTime codec now proof opts h = elim (Bool-cases (is_blank proof.created)) [
  | inl blank ↦ (inl blank, let e = rw blank at h in cc)
  | inr given ↦
      let (created, parsed, rest) =
        require-then (codec.parse_time proof.created) malformed_proof opts _ (rw given at h) in
      let (young, same) = reject-ok (is_too_old opts.max_age now created) out_of_date opts rest in
      (inr (created, parsed, young), same)
]

-- The limits that a caller sets, and the suite's answer.
pub record IsWithin (codec : Codec) (now : ℤ) (proof : Proof) (answer : Option Error)
    (opts : ProofOptions) : Type 0 where
  pub in_time : InTime codec now proof opts
  pub domain : differs_from opts.domain proof.domain ≡ false
  pub challenge : differs_from opts.challenge proof.challenge ≡ false
  pub verified : answer ≡ none

answer-ok :
    (answer : Option Error) (opts : ProofOptions) {o : ProofOptions}
    → elim answer [ none ↦ ok tt opts | some e ↦ err e opts ] ≡ ok tt o
    → (answer ≡ none) × (opts ≡ o)
answer-ok none opts h = (refl, cc)
answer-ok (some e) opts h = cc

check_limits-IsWithin :
    (codec : Codec) (now : ℤ) (proof : Proof) (answer : Option Error) (opts : ProofOptions)
    {o : ProofOptions}
    → check_limits codec now proof answer opts ≡ ok tt o
    → IsWithin codec now proof answer opts × (opts ≡ o)
unfolding check_limits
check_limits-IsWithin codec now proof answer opts h =
    let (_, mid, aged, h1) = ended-then (check_age codec now proof opts) _ h in
    let (young, same) = check_age-InTime codec now proof opts aged in
    let (dom, h2) = reject-then (differs_from mid.domain proof.domain) invalid_domain mid _ h1 in
    let (chal, h3) =
      reject-then (differs_from mid.challenge proof.challenge) invalid_challenge mid _ h2 in
    let (fine, last) = answer-ok answer mid h3 in
    (
      record {
        in_time = young;
        domain = subst (λ x. differs_from x.domain proof.domain ≡ false) (sym same) dom;
        challenge = subst (λ x. differs_from x.challenge proof.challenge ≡ false) (sym same) chal;
        verified = fine;
      },
      same ∙ last,
    )

IsWithin-SameAims :
    (codec : Codec) (now : ℤ) (proof : Proof) (answer : Option Error) (a b : ProofOptions)
    → SameAims a b
    → IsWithin codec now proof answer b
    → IsWithin codec now proof answer a
IsWithin-SameAims codec now proof answer a b same within = record {
  in_time = elim within.in_time [
    | inl blank ↦ inl blank
    | inr (created, parsed, young) ↦
        inr (created, parsed, subst (λ m. is_too_old m now created ≡ false) same.max_age young)
  ];
  domain = subst (λ d. differs_from d proof.domain ≡ false) same.domain within.domain;
  challenge = subst (λ c. differs_from c proof.challenge ≡ false) same.challenge within.challenge;
  verified = within.verified;
}

str_eq-not : (s t : Str) → not (str_eq s t) ≡ false → s ≡ t
str_eq-not s t h = (str_eq_iff s t).0 (ground arith)

-- All that an accepted proof is checked for. `opts` are the options of the caller, `o` the options as
-- the call leaves them, which the suite verifies with.
pub record Accepted (codec : Codec) (now : ℤ) (v : Verifier) (doc : Str) (opts o : ProofOptions)
    : Type 0 where
  pub raw : Str
  pub proof : Proof
  pub suite : SuiteVerifier
  pub unsecured : Str
  pub before : ProofOptions
  pub has_proof : codec.get_proof doc ≡ some raw
  pub parses : codec.unmarshal raw ≡ some proof
  pub typed : proof.type ≡ data_integrity_proof
  pub has_suite : lookup proof.crypto_suite v.suites ≡ some suite
  pub has_created : (suite.requires_created && is_blank proof.created) ≡ false
  pub purpose : proof.proof_purpose ≡ opts.purpose
  pub strips : codec.delete_proof doc ≡ some unsecured
  pub defaulted : Defaulted codec proof opts before
  pub resolved : IsResolved v.resolver proof.verification_method before o
  pub within : IsWithin codec now proof (suite.verify_proof unsecured proof o) opts

module _ (codec : Codec) (now : ℤ) (v : Verifier) (doc : Str) (opts : ProofOptions)
    {o : ProofOptions} where
  -- A document that `VerifyProof` accepts has a data integrity proof of a supported suite and of the
  -- purpose that the caller expects; its method comes from the options or from the DID document
  -- under that purpose; the suite verifies the document without the proof; and the proof keeps the
  -- age, the domain and the challenge that the caller asks for.
  pub verify_proof-Accepted :
      verify_proof codec now v doc opts ≡ ok tt o → Accepted codec now v doc opts o
  unfolding verify_proof
  verify_proof-Accepted h =
      let (raw, has_proof, h1) = require-then (codec.get_proof doc) missing_proof opts _ h in
      let (proof, parses, h2) = require-then (codec.unmarshal raw) malformed_proof opts _ h1 in
      let (_, o3, shaped, h3) = ended-then (check_shape proof opts) _ h2 in
      let (typed, same3) = check_shape-ok proof opts shaped in
      let (suite, has_suite, h4) =
        require-then (lookup proof.crypto_suite v.suites) unsupported_suite o3 _ h3 in
      let (has_created, h5) =
        reject-then (suite.requires_created && is_blank proof.created) malformed_proof
          (default_suite proof o3) _ h4 in
      let (_, o6, created, h6) =
        ended-then (default_created codec proof (default_suite proof o3)) _ h5 in
      let (purpose, h7) =
        reject-then (not (str_eq proof.proof_purpose o6.purpose)) mismatched_purpose o6 _ h6 in
      let (unsecured, strips, h8) = require-then (codec.delete_proof doc) malformed_proof o6 _ h7 in
      let (_, o9, resolving, h9) =
        ended-then (resolve_vm o6 v.resolver proof.verification_method) _ h8 in
      let (within, same9) =
        check_limits-IsWithin codec now proof (suite.verify_proof unsecured proof o9) o9 h9 in
      let defaulted =
        subst (λ x. Defaulted codec proof x o6) (sym same3)
          (defaults-Defaulted codec proof o3 created) in
      let resolved = resolve_vm-IsResolved v.resolver proof.verification_method o6 resolving in
      record {
        raw = raw;
        proof = proof;
        suite = suite;
        unsecured = unsecured;
        before = o6;
        has_proof = has_proof;
        parses = parses;
        typed = typed;
        has_suite = has_suite;
        has_created = has_created;
        purpose = str_eq-not proof.proof_purpose o6.purpose purpose ∙ defaulted.same.purpose;
        strips = strips;
        defaulted = defaulted;
        resolved = subst (IsResolved v.resolver proof.verification_method o6) same9 resolved;
        within =
            subst (λ x. IsWithin codec now proof (suite.verify_proof unsecured proof x) opts) same9
              (IsWithin-SameAims codec now proof (suite.verify_proof unsecured proof o9) opts o9
                (SameAims-trans opts o6 o9 defaulted.same resolved.same) within);
      }

same_proof :
    (codec : Codec) (doc : Str) {r s : Str} {p q : Proof}
    → codec.get_proof doc ≡ some r
    → codec.unmarshal r ≡ some p
    → codec.get_proof doc ≡ some s
    → codec.unmarshal s ≡ some q
    → p ≡ q
same_proof codec doc {r} {s} {p} {q} a b c d =
    let raw : r ≡ s = cc in let e = subst (λ x. codec.unmarshal x ≡ some p) raw b in cc

-- A proof without a time of creation is never accepted under options without a time, not even by a
-- suite that does not require the time, where an empty text is no time.
pub verify_proof-undated :
    (codec : Codec) (now : ℤ) (v : Verifier) (doc : Str) (opts o : ProofOptions) (raw : Str)
    (proof : Proof)
    → codec.get_proof doc ≡ some raw
    → codec.unmarshal raw ≡ some proof
    → proof.created ≡ []
    → codec.parse_time [] ≡ none
    → opts.created ≡ pos 0
    → ¬ (verify_proof codec now v doc opts ≡ ok tt o)
verify_proof-undated codec now v doc opts o raw proof has_proof parses undated_proof no_time
      zero_time h =
    let a = verify_proof-Accepted codec now v doc opts h in
    let same = same_proof codec doc has_proof parses a.has_proof a.parses in
    elim a.defaulted.dated [
      | inl given ↦ let bad = subst (λ t. eqb_ℤ t (pos 0) ≡ false) zero_time given in cc
      | inr (t, parsed) ↦
          let blank : a.proof.created ≡ [] = ap (λ p. p.created) (sym same) ∙ undated_proof in
          let bad = subst (λ c. codec.parse_time c ≡ some t) blank parsed in cc
    ]

-- A second document that is verified with the options that an accepted one left is verified with the
-- method of the first one, whatever method its own proof names.
pub verify_proof-reuse :
    (codec : Codec) (now : ℤ) (v : Verifier) (first second : Str) (opts o1 o2 : ProofOptions)
    → verify_proof codec now v first opts ≡ ok tt o1
    → verify_proof codec now v second o1 ≡ ok tt o2
    → o2.verification_method ≡ o1.verification_method
verify_proof-reuse codec now v first second opts o1 o2 h k =
    let a = verify_proof-Accepted codec now v first opts h in
    let b = verify_proof-Accepted codec now v second o1 k in
    let first_method = a.resolved.chosen in
    let second_method = b.resolved.chosen in
    let kept = b.defaulted.method in
    elim b.resolved.source [
      | inl (there, _) ↦ second_method ∙ sym (sym kept ∙ there)
      | inr (missing, _, _) ↦
          let bad : none ≡ some a.resolved.vm = sym missing ∙ kept ∙ first_method in cc
    ]
