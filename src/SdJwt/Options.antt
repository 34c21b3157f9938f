-- ===== src/SdJwt/Options.antt =====
-- sdjwt/verifier: the options of `Parse`, applied to the defaults in order.
use vc_go.Prelude.{Bool, false, List, [], ◌∷◌, Str, codes}
use vc_go.SdJwt.Types.{Fields, Result}
use vc_go.SdJwt.Verifier.{ParseOpts, Environment, parse}

abbrev pub ParseOpt : Type 0
ParseOpt = ParseOpts → ParseOpts

unfoldable pub with_issuer_signing_algorithms : List Str → ParseOpt
with_issuer_signing_algorithms algorithms opts = record opts {
  issuer_signing_algorithms = algorithms;
}

unfoldable pub with_holder_signing_algorithms : List Str → ParseOpt
with_holder_signing_algorithms algorithms opts = record opts {
  holder_signing_algorithms = algorithms;
}

unfoldable pub with_holder_verification_required : Bool → ParseOpt
with_holder_verification_required flag opts = record opts { holder_verification_required = flag }

unfoldable pub with_expected_audience_for_holder_verification : Str → ParseOpt
with_expected_audience_for_holder_verification audience opts = record opts {
  expected_audience = audience;
}

unfoldable pub with_expected_nonce_for_holder_verification : Str → ParseOpt
with_expected_nonce_for_holder_verification nonce opts = record opts { expected_nonce = nonce }

unfoldable pub with_expected_typ_header : Str → ParseOpt
with_expected_typ_header typ opts = record opts { expected_typ_header = typ }

-- The deprecated names.
unfoldable pub with_holder_binding_required : Bool → ParseOpt
with_holder_binding_required flag = with_holder_verification_required flag

unfoldable pub with_expected_audience_for_holder_binding : Str → ParseOpt
with_expected_audience_for_holder_binding audience =
    with_expected_audience_for_holder_verification audience

unfoldable pub with_expected_nonce_for_holder_binding : Str → ParseOpt
with_expected_nonce_for_holder_binding nonce = with_expected_nonce_for_holder_verification nonce

unfoldable pub default_opts : ParseOpts
default_opts = record {
  issuer_signing_algorithms = codes "EdDSA" ∷ codes "RS256" ∷ [];
  holder_signing_algorithms = codes "EdDSA" ∷ codes "RS256" ∷ [];
  holder_verification_required = false;
  expected_audience = [];
  expected_nonce = [];
  expected_typ_header = [];
}

unfoldable pub apply_opts : List ParseOpt → ParseOpts → ParseOpts
apply_opts [] opts = opts
apply_opts (opt ∷ rest) opts = apply_opts rest (opt opts)

-- `Parse` with its options.
unfoldable pub parse_with : {Key : Type 0} → Environment Key → List ParseOpt → Str → Result Fields
parse_with env options combined = parse env (apply_opts options default_opts) combined
