-- ===== src/SdJwt/Bound.antt =====
-- The holder's JWT of an accepted presentation.
use vc_go.Prelude.{
  ◌≡◌, refl, ◌⊎◌, inl, inr, true, false, [], ◌∷◌, some, arith, Bool-cases, Str, codes, str_eq,
  str_eq_iff,
}
use vc_go.Prelude.Dicts.{lookup}
use vc_go.SdJwt.Types.{
  Value, Fields, entries, jwk_missing, jwk_invalid, holder_jwt_invalid, binding_invalid, ok, ◌>>=◌,
  Version, v2, v5,
}
use vc_go.SdJwt.Claims.{get_cnf}
use vc_go.SdJwt.Disclosures.{require}
use vc_go.SdJwt.Verification.{Jwt, verify_signing_alg}
use vc_go.SdJwt.Verifier.{
  ParseOpts, Binding, Environment, require_timely, get_signature_verifier, differs, check_binding,
  verify_key_binding_jwt, verify_holder_binding_jwt, version_of, verify_holder_verification_jwt,
  check_holder_proof, run_holder_verification,
}
use vc_go.SdJwt.Keeping.{require-some}
use vc_go.SdJwt.Parsed.{then-ok, copy_map-same}
use vc_go.SdJwt.Issued.{IsSecure, verify_signing_alg-IsSecure}

-- An expectation that is empty or met.
pub IsMet : Str → Str → Type 0
IsMet expected value = (expected ≡ []) ⊎ (expected ≡ value)

module _ {Key : Type 0} (env : Environment Key) (opts : ParseOpts) where
  differs-IsMet :
      (expected value : Str) → differs env opts expected value ≡ false → IsMet expected value
  unfolding differs IsMet
  differs-IsMet expected value h = elim (Bool-cases (str_eq expected [])) [
    | inl empty ↦ inl ((str_eq_iff expected []).0 empty)
    | inr given ↦ inr ((str_eq_iff expected value).0 (ground (arith, h, given)))
  ]

  -- The holder's JWT is signed by the key that the claims confirm, and answers what is expected.
  pub record IsBound (payload : Fields) (holder : Str) : Type 0 where
    pub cnf : Fields
    pub jwk : Value
    pub key : Key
    pub jwt : Jwt
    pub binding : Binding
    pub confirmed : get_cnf payload ≡ ok cnf
    pub has_jwk : lookup (codes "jwk") (entries cnf) ≡ some jwk
    pub is_key : env.key_of jwk ≡ some key
    pub is_jwt : env.parse_jwt holder ≡ some jwt
    pub proven : env.check_proof holder key ≡ true
    pub secure : IsSecure jwt.headers opts.holder_signing_algorithms
    pub timely : env.times_valid jwt.payload ≡ true
    pub read : env.read_binding jwt.payload ≡ some binding
    pub nonce : IsMet opts.expected_nonce binding.nonce
    pub audience : IsMet opts.expected_audience binding.audience

  pub require_timely-valid :
      (jwt : Jwt) → require_timely env opts jwt ≡ ok tt → env.times_valid jwt.payload ≡ true
  unfolding require_timely
  require_timely-valid jwt h = ground (arith, h)

  check_binding-IsMet :
      (b : Binding)
      → check_binding env opts b ≡ ok tt
      → IsMet opts.expected_nonce b.nonce × IsMet opts.expected_audience b.audience
  unfolding check_binding
  check_binding-IsMet b h = (
    differs-IsMet opts.expected_nonce b.nonce (ground (arith, h)),
    differs-IsMet opts.expected_audience b.audience (ground (arith, h)),
  )

  -- Both kinds of binding JWT are checked alike.
  binding_checked :
      (jwt : Jwt)
      → elim (version_of env opts jwt.headers) [
        | v5 ↦ verify_key_binding_jwt env opts jwt
        | v2 ↦ verify_holder_binding_jwt env opts jwt
      ]
        ≡ ok tt
      → (require binding_invalid (env.read_binding jwt.payload) >>= check_binding env opts) ≡ ok tt
  unfolding verify_key_binding_jwt verify_holder_binding_jwt
  binding_checked jwt h = by_version (version_of env opts jwt.headers) h
    where
      by_version :
          (w : Version)
          → elim w [
            | v5 ↦ verify_key_binding_jwt env opts jwt
            | v2 ↦ verify_holder_binding_jwt env opts jwt
          ]
            ≡ ok tt
          → (require binding_invalid (env.read_binding jwt.payload) >>= check_binding env opts)
            ≡ ok tt
      by_version v2 h = h
      by_version v5 h = h

  pub run_holder_verification-IsBound :
      (jwt : Jwt) (holder : Str)
      → run_holder_verification env opts jwt holder ≡ ok tt
      → (holder ≡ []) × (opts.holder_verification_required ≡ false) ⊎ IsBound jwt.payload holder
  unfolding run_holder_verification get_signature_verifier verify_holder_verification_jwt
      check_holder_proof
  run_holder_verification-IsBound jwt [] h = inl (refl, ground (arith, h))
  run_holder_verification-IsBound jwt (c ∷ holder) h =
      let h0 = rw (copy_map-same jwt.payload) at h in
      let (key, found, h1) = then-ok (get_signature_verifier env opts jwt.payload) _ h0 in
      let (cnf, confirmed, found1) = then-ok (get_cnf jwt.payload) _ found in
      let (jwk, has_jwk, found2) =
        then-ok (require jwk_missing (lookup (codes "jwk") (entries cnf))) _ found1 in
      let (bound, is_jwt, h2) =
        then-ok (require holder_jwt_invalid (env.parse_jwt (c ∷ holder))) _ h1 in
      let (_, proven, h3) = then-ok (check_holder_proof env opts (c ∷ holder) key) _ h2 in
      let (_, signed, h4) =
        then-ok (verify_signing_alg bound.headers opts.holder_signing_algorithms) _ h3 in
      let (_, timely, h5) = then-ok (require_timely env opts bound) _ h4 in
      let (binding, read, h6) =
        then-ok (require binding_invalid (env.read_binding bound.payload)) _
          (binding_checked bound h5) in
      let (nonce, audience) = check_binding-IsMet binding h6 in
      inr (record {
        cnf = cnf;
        jwk = jwk;
        key = key;
        jwt = bound;
        binding = binding;
        confirmed = confirmed;
        has_jwk = require-some jwk_missing _ has_jwk;
        is_key = require-some jwk_invalid _ found2;
        is_jwt = require-some holder_jwt_invalid _ is_jwt;
        proven = ground (arith, proven);
        secure = verify_signing_alg-IsSecure bound.headers opts.holder_signing_algorithms signed;
        timely = require_timely-valid bound timely;
        read = require-some binding_invalid _ read;
        nonce = nonce;
        audience = audience;
      })
