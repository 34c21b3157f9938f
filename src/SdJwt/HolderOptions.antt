-- ===== src/SdJwt/HolderOptions.antt =====
-- sdjwt/holder: the options of `Parse` and `CreatePresentation`.
use vc_go.Prelude.{Bool, false, List, [], ◌∷◌, Option, none, some, Str}
use vc_go.SdJwt.Types.{Result}
use vc_go.SdJwt.Holder.{Claim, HolderOpts, HolderEnvironment, parse_issued, create_presentation}

abbrev pub HolderParseOpt : Type 0
HolderParseOpt = HolderOpts → HolderOpts

unfoldable pub with_sdjwt_v5_validation : Bool → HolderParseOpt
with_sdjwt_v5_validation flag opts = record opts { sdjwt_v5_validation = flag }

unfoldable pub with_issuer_signing_algorithms : List Str → HolderParseOpt
with_issuer_signing_algorithms algorithms opts = record opts {
  issuer_signing_algorithms = algorithms;
}

unfoldable pub with_expected_typ_header : Str → HolderParseOpt
with_expected_typ_header typ opts = record opts { expected_typ_header = typ }

-- The options start empty, and a later one takes effect last.
unfoldable pub apply_all : {A : Type 0} → List (A → A) → A → A
apply_all [] opts = opts
apply_all (opt ∷ rest) opts = apply_all rest (opt opts)

unfoldable pub empty_opts : HolderOpts
empty_opts = record {
  sdjwt_v5_validation = false;
  issuer_signing_algorithms = [];
  expected_typ_header = [];
}

module _ {BindingInfo : Type 0} where
  unfoldable pub with_holder_verification : BindingInfo → Option BindingInfo → Option BindingInfo
  with_holder_verification info opts = some info

  -- The deprecated name.
  unfoldable pub with_holder_binding : BindingInfo → Option BindingInfo → Option BindingInfo
  with_holder_binding info opts = some info

  unfoldable pub parse_issued_with :
      HolderEnvironment BindingInfo → List HolderParseOpt → Str → Result (List Claim)
  parse_issued_with env options combined = parse_issued env (apply_all options empty_opts) combined

  unfoldable pub create_presentation_with :
      HolderEnvironment BindingInfo
      → List (Option BindingInfo → Option BindingInfo)
      → Str
      → List Str
      → Result Str
  create_presentation_with env options combined claims_to_disclose =
      create_presentation env combined claims_to_disclose (apply_all options none)
