-- ===== src/SdJwt/Accepted.antt =====
-- What the verifier's `Parse` accepts.
use mathlib.Core.Path.{subst}
use vc_go.Prelude.{
  ◌≡◌, ◌∙◌, sym, ap, ◌⊎◌, inl, inr, true, false, List, [], some, arith, Bool-cases, Str, str_eq,
  str_eq_iff,
}
use vc_go.Prelude.Dicts.{Dict}
use vc_go.Requirement.Sets.{has}
use vc_go.Requirement.Positions.{NoDup}
use vc_go.SdJwt.Types.{Fields, object, jwt_invalid, typ_missing, ok, Hash, DisclosureClaim}
use vc_go.SdJwt.Claims.{get_crypto_hash_from_claims}
use vc_go.SdJwt.Disclosures.{require, claims_by_digest}
use vc_go.SdJwt.Format.{parse_presentation}
use vc_go.SdJwt.Verification.{
  Headers, Jwt, verify_signing_alg, verify_typ, check_for_duplicates, verify_disclosures_in_sdjwt,
}
use vc_go.SdJwt.Verifier.{
  ParseOpts, Environment, require_timely, validate_issuer_signed_sdjwt, run_holder_verification,
  check_typ, disclosed_claims, parse,
}
use vc_go.SdJwt.Keeping.{require-some}
use vc_go.SdJwt.Parsed.{then-ok}
use vc_go.SdJwt.Covered.{IsCovered, verify_disclosures_in_sdjwt-IsCovered}
use vc_go.SdJwt.Issued.{IsSecure, verify_signing_alg-IsSecure, check_for_duplicates-NoDup}
use vc_go.SdJwt.Bound.{IsBound, require_timely-valid, run_holder_verification-IsBound}

module _ {Key : Type 0} (env : Environment Key) (opts : ParseOpts) where
  -- What an accepted presentation is.
  pub record IsAccepted (combined : Str) (claims : Fields) : Type 0 where
    pub jwt : Jwt
    pub hash : Hash
    pub found : Dict DisclosureClaim
    pub issued : env.parse_and_check_proof (parse_presentation combined).sdjwt ≡ some jwt
    pub secure : IsSecure jwt.headers opts.issuer_signing_algorithms
    pub timely : env.times_valid jwt.payload ≡ true
    pub distinct : NoDup (parse_presentation combined).disclosures
    pub hashed : get_crypto_hash_from_claims env.upper jwt.payload ≡ ok hash
    pub parsed :
        claims_by_digest env.codec (parse_presentation combined).disclosures hash ≡ ok found
    pub covered :
        (x : Str)
        → has (parse_presentation combined).disclosures x ≡ true
        → IsCovered env.codec hash found (object jwt.payload) x
    pub typed : (opts.expected_typ_header ≡ []) ⊎ (jwt.headers.type ≡ some opts.expected_typ_header)
    pub holder :
        ((parse_presentation combined).holder_verification ≡ [])
          × (opts.holder_verification_required ≡ false)
        ⊎ IsBound env opts jwt.payload (parse_presentation combined).holder_verification
    pub output :
        disclosed_claims env opts (parse_presentation combined).disclosures jwt hash ≡ ok claims

  check_typ-typed :
      (headers : Headers)
      → check_typ env opts headers ≡ ok tt
      → (opts.expected_typ_header ≡ []) ⊎ (headers.type ≡ some opts.expected_typ_header)
  unfolding check_typ verify_typ
  check_typ-typed headers h = elim (Bool-cases (str_eq opts.expected_typ_header [])) [
    | inl none_expected ↦ inl ((str_eq_iff opts.expected_typ_header []).0 none_expected)
    | inr expected ↦
        let h0 : verify_typ headers opts.expected_typ_header ≡ ok tt =
          rw (expected, check_typ) at h in
        let (typ, named, h1) = then-ok (require typ_missing headers.type) _ h0 in
        let same = (str_eq_iff typ opts.expected_typ_header).0 (ground (arith, h1)) in
        inr (require-some typ_missing headers.type named ∙ ap some same)
  ]

  IsIssued : Str → List Str → Jwt → Type 0
  IsIssued sdjwt disclosures jwt =
      (env.parse_and_check_proof sdjwt ≡ some jwt)
      × IsSecure jwt.headers opts.issuer_signing_algorithms
      × (env.times_valid jwt.payload ≡ true)
      × NoDup disclosures

  validate_issuer_signed_sdjwt-IsIssued :
      (sdjwt : Str) (disclosures : List Str) (jwt : Jwt)
      → validate_issuer_signed_sdjwt env opts sdjwt disclosures ≡ ok jwt
      → IsIssued sdjwt disclosures jwt
  unfolding validate_issuer_signed_sdjwt IsIssued
  validate_issuer_signed_sdjwt-IsIssued sdjwt disclosures jwt h =
      let (read, issued, h1) =
        then-ok (require jwt_invalid (env.parse_and_check_proof sdjwt)) _ h in
      let (_, signed, h2) =
        then-ok (verify_signing_alg read.headers opts.issuer_signing_algorithms) _ h1 in
      let (_, timely, h3) = then-ok (require_timely env opts read) _ h2 in
      let (_, distinct, h4) = then-ok (check_for_duplicates disclosures) _ h3 in
      let same : read ≡ jwt = cc in
      subst (IsIssued sdjwt disclosures) same (
        require-some jwt_invalid (env.parse_and_check_proof sdjwt) issued,
        verify_signing_alg-IsSecure read.headers opts.issuer_signing_algorithms signed,
        require_timely-valid env opts read timely,
        check_for_duplicates-NoDup disclosures distinct,
      )

  -- A presentation that `Parse` accepts has an issuer's JWT whose proof and times hold, signed with an
  -- allowed algorithm, distinct disclosures that its payload covers, the expected type, and either no
  -- holder's JWT, where none is required, or one that the confirmed key signs and that meets the
  -- expectations; the result is what `getDisclosedClaims` makes of the payload and the disclosures.
  pub parse-IsAccepted :
      (combined : Str) (claims : Fields)
      → parse env opts combined ≡ ok claims
      → IsAccepted combined claims
  unfolding parse IsIssued
  parse-IsAccepted combined claims h =
      let cfp = parse_presentation combined in
      let (jwt, valid, h1) =
        then-ok (validate_issuer_signed_sdjwt env opts cfp.sdjwt cfp.disclosures) _ h in
      let (issued, secure, timely, distinct) =
        validate_issuer_signed_sdjwt-IsIssued cfp.sdjwt cfp.disclosures jwt valid in
      let (_, disclosed, h2) =
        then-ok (verify_disclosures_in_sdjwt env.upper env.codec cfp.disclosures jwt) _ h1 in
      let (_, typed, h3) = then-ok (check_typ env opts jwt.headers) _ h2 in
      let (_, bound, h4) =
        then-ok (run_holder_verification env opts jwt cfp.holder_verification) _ h3 in
      let (hash, hashed, output) =
        then-ok (get_crypto_hash_from_claims env.upper jwt.payload) _ h4 in
      let (hash1, found, hashed1, parsed, covered) =
        verify_disclosures_in_sdjwt-IsCovered env.upper env.codec cfp.disclosures jwt disclosed in
      let same_hash : hash ≡ hash1 = cc in
      record {
        jwt = jwt;
        hash = hash;
        found = found;
        issued = issued;
        secure = secure;
        timely = timely;
        distinct = distinct;
        hashed = hashed;
        parsed =
            subst (λ x. claims_by_digest env.codec cfp.disclosures x ≡ ok found) (sym same_hash)
              parsed;
        covered = λ x given.
            subst (λ y. IsCovered env.codec y found (object jwt.payload) x) (sym same_hash)
              (covered x given);
        typed = check_typ-typed jwt.headers typed;
        holder = run_holder_verification-IsBound env opts jwt cfp.holder_verification bound;
        output = output;
      }
