-- ===== src/SdJwt/Tests.antt =====
-- Concrete runs of sdjwt/common and sdjwt/verifier.
use mathlib.Core.Path.{subst}
use vc_go.Prelude.{
  false, Bool-cases, inl, inr, arith, ℕ, ◌-◌, ◌≡◌, ◌≢◌, refl, true, ◌&&◌, List, [], ◌∷◌, map,
  Option, none, some, if◌then◌else◌, codes, leb, Str, str_eq,
}
use vc_go.Prelude.Dicts.{Dict, lookup, insert}
use vc_go.Prelude.Strings.{split_byte, contains_byte}
use vc_go.Requirement.Sets.{has, add, add_all}
use vc_go.SdJwt.Types.{
  Value, Fields, null, text, array, object, nil, item, end, field, entries, fields_of, items_of, ok,
  err, out_of_fuel, digest_not_found, Hash, sha256, DisclosureClaim,
}
use vc_go.SdJwt.Claims.{
  get_key_from_vc, get_claim, get_sd_alg, get_cnf, parse_crypto_hash_alg,
  get_crypto_hash_from_claims, texts_of, string_array, single_digest, single_digests, array_digests,
  sd_digests, slice_to_map, get_disclosure_digests, key_exists_in_map,
}
use vc_go.SdJwt.Disclosures.{
  Codec, text_of, enrich_with_array_element, set_version, enrich_with_sd_element, enrich, get_hash,
  salt_of, get_disclosure_claim, collect_claims, claims_by_digest,
}
use vc_go.SdJwt.Disclose.{
  array_element_digest, add_nested, take_digest, is_null, store_claim, set_parsed,
  set_disclosure_claim_value, disclose_claim, disclose_element, disclose_item, disclose_items,
  add_claim, disclose_digests, keep_missing, disclose_sd, is_skipped, add_value, array_of,
  disclose_value, disclose, disclose_claim_value,
}
use vc_go.SdJwt.Format.{
  CombinedFormatForPresentation, append_disclosures, serialize_issuance, last_separator,
  serialize_presentation, issuance_of_parts, parse_issuance, all_but_last, last_part,
  presentation_of_parts, parse_presentation,
}
use vc_go.SdJwt.Verification.{
  Jwt, copy_map, verify_signing_alg, verify_typ, collect_duplicates, check_for_duplicates,
  check_parsed, parse_claims, claims_map, verify_disclosures_in_sdjwt, get_disclosure_claims,
  get_disclosed_claims,
}
use vc_go.SdJwt.Verifier.{
  ParseOpts, Environment, require_timely, validate_issuer_signed_sdjwt, get_signature_verifier,
  differs, check_binding, verify_key_binding_jwt, verify_holder_binding_jwt, version_of,
  verify_holder_verification_jwt, check_holder_proof, run_holder_verification, check_typ,
  disclosed_claims, parse,
}
use vc_go.SdJwt.Options.{
  apply_opts, default_opts, with_expected_nonce_for_holder_binding,
  with_expected_nonce_for_holder_verification, parse_with,
}
use vc_go.SdJwt.Holder.{
  HolderEnvironment, check_any, check_selected, create_holder_verification, create_presentation,
}
use vc_go.SdJwt.Presented.{AllListed, parse_presentation-create_presentation}
use vc_go.SdJwt.Formats.{parse-serialize_presentation}
use vc_go.SdJwt.Covered.{IsCovered, verify_disclosures_in_sdjwt-IsCovered}
use vc_go.SdJwt.Total.{disclosing_total}
use vc_go.SdJwt.Accepted.{IsAccepted, parse-IsAccepted}

program : Unit {0}
unfolding str_eq lookup insert split_byte contains_byte has add add_all entries fields_of items_of
    get_key_from_vc get_claim get_sd_alg get_cnf parse_crypto_hash_alg get_crypto_hash_from_claims
    texts_of string_array single_digest single_digests array_digests sd_digests slice_to_map
    get_disclosure_digests key_exists_in_map text_of enrich_with_array_element set_version
    enrich_with_sd_element enrich get_hash salt_of get_disclosure_claim collect_claims
    claims_by_digest array_element_digest add_nested take_digest is_null store_claim set_parsed
    set_disclosure_claim_value disclose_claim disclose_element disclose_item disclose_items
    add_claim disclose_digests keep_missing disclose_sd is_skipped add_value array_of disclose_value
    disclose disclose_claim_value append_disclosures serialize_issuance last_separator
    serialize_presentation issuance_of_parts parse_issuance all_but_last last_part
    presentation_of_parts parse_presentation copy_map verify_signing_alg verify_typ
    collect_duplicates check_for_duplicates check_parsed parse_claims claims_map
    verify_disclosures_in_sdjwt get_disclosure_claims get_disclosed_claims require_timely
    validate_issuer_signed_sdjwt get_signature_verifier differs check_binding verify_key_binding_jwt
    verify_holder_binding_jwt version_of verify_holder_verification_jwt check_holder_proof
    run_holder_verification check_typ disclosed_claims parse apply_opts default_opts check_any
    check_selected create_holder_verification create_presentation
    with_expected_nonce_for_holder_binding with_expected_nonce_for_holder_verification parse_with
program = tt

abbrev upper : Str → Str
upper = map (λ c. if leb b'a' c && leb c b'z' then c - 32 else c)

-- A claim with a digest inside, what is behind that digest, and an array element.
abbrev unmarshal : Str → Option (List Value)
unmarshal s =
    if str_eq s (codes "A")
    then some (
        text []
        ∷ text (codes "address")
        ∷ object (field (codes "_sd") (array (item (text (codes "B")) nil)) end)
        ∷ [])
    else if str_eq s (codes "B")
    then some (text [] ∷ text (codes "city") ∷ text (codes "Graz") ∷ [])
    else if str_eq s (codes "C")
    then some (text [] ∷ text (codes "DE") ∷ [])
    else none

-- The digest of a disclosure is its own text.
abbrev codec : Codec
codec = record {
  decode = λ s. some s;
  encode = λ s. s;
  unmarshal = unmarshal;
  is_available = λ h. true;
  sum = λ h s. s;
}

abbrev digest_element : Str → Value
digest_element d = object (field (codes "...") (text d) end)

abbrev payload : Fields
payload = field (codes "_sd_alg") (text (codes "sha-256")) (
    field (codes "_sd") (array (item (text (codes "A")) (item (text (codes "X")) nil)))
      (field (codes "nations") (array (item (digest_element (codes "C")) nil)) end))

abbrev signed : Jwt
signed = record {
  headers = record { algorithm = some (codes "EdDSA"); type = none };
  payload = payload;
}

abbrev all_three : List Str
all_three = codes "A" ∷ codes "B" ∷ codes "C" ∷ []

verified : verify_disclosures_in_sdjwt upper codec all_three signed ≡ ok tt
unfolding program
verified = refl

-- Without the disclosure that names it, a digest is not found.
not_found :
    verify_disclosures_in_sdjwt upper codec (codes "B" ∷ []) signed
    ≡ err (digest_not_found (codes "B"))
unfolding program
not_found = refl

verify_disclosures_in_sdjwt-IsCovered_example :
    (hash : Hash) × (claims : Dict DisclosureClaim) × (get_crypto_hash_from_claims upper payload
      ≡ ok hash)
    × (claims_by_digest codec all_three hash ≡ ok claims)
    × ((x : Str) → has all_three x ≡ true → IsCovered codec hash claims (object payload) x)
verify_disclosures_in_sdjwt-IsCovered_example =
    verify_disclosures_in_sdjwt-IsCovered upper codec all_three signed verified

disclosing_total_example :
    (verify_disclosures_in_sdjwt upper codec all_three signed ≢ out_of_fuel)
    × (get_disclosure_claims upper codec all_three sha256 ≢ out_of_fuel)
    × (get_disclosed_claims upper codec [] payload ≢ out_of_fuel)
disclosing_total_example = disclosing_total upper codec all_three signed sha256 [] payload

abbrev env : Environment ℕ
env = record {
  upper = upper;
  codec = codec;
  parse_and_check_proof = λ s. if str_eq s (codes "J") then some signed else none;
  times_valid = λ fs. true;
  key_of = λ v. some 1;
  parse_jwt = λ s. none;
  check_proof = λ s k. true;
  read_binding = λ fs. none;
}

abbrev opts : ParseOpts
opts = apply_opts (with_expected_nonce_for_holder_binding (codes "n") ∷ []) default_opts

abbrev disclosed : Fields
disclosed =
    field (codes "address") (object (field (codes "city") (text (codes "Graz")) end))
      (field (codes "nations") (array (item (text (codes "DE")) nil)) end)

parsed :
    parse_with env (with_expected_nonce_for_holder_binding (codes "n") ∷ []) (codes "J~A~B~C~")
    ≡ ok disclosed
unfolding program
parsed = refl

parse-IsAccepted_example : IsAccepted env opts (codes "J~A~B~C~") disclosed
unfolding program
parse-IsAccepted_example = parse-IsAccepted env opts (codes "J~A~B~C~") disclosed parsed

abbrev presented : CombinedFormatForPresentation
presented = record {
  sdjwt = codes "J";
  disclosures = codes "A" ∷ codes "B" ∷ [];
  holder_verification = codes "H";
}

parse-serialize_presentation_example : parse_presentation (codes "J~A~B~H") ≡ presented
unfolding program
parse-serialize_presentation_example =
    parse-serialize_presentation presented (refl, (refl, (refl, tt))) refl

-- A digest in an object inside an array is not looked for.
abbrev array_of_objects : Jwt
array_of_objects = record signed {
  payload = field (codes "_sd_alg") (text (codes "sha-256")) (
      field (codes "list")
        (array (item (object (field (codes "_sd") (array (item (text (codes "B")) nil)) end)) nil))
        end);
}

not_in_array :
    verify_disclosures_in_sdjwt upper codec (codes "B" ∷ []) array_of_objects
    ≡ err (digest_not_found (codes "B"))
unfolding program
not_in_array = refl

-- Claims that are null or empty arrays are left out of the result.
dropped :
    get_disclosed_claims upper codec [] (
      field
        (codes "_sd_alg")
        (text (codes "sha-256"))
        (field (codes "a") null (field (codes "b") (array nil) end)))
    ≡ ok end
unfolding program
dropped = refl

abbrev holder_env : HolderEnvironment Str
holder_env = record {
  upper = upper;
  codec = codec;
  parse_and_check_proof = λ s. some signed;
  times_valid = λ fs. true;
  is_jwt = λ s. false;
  sign = λ nonce. if contains_byte b'~' nonce then none else some nonce;
}

sign-plain : (nonce s : Str) → holder_env.sign nonce ≡ some s → contains_byte b'~' s ≡ false
sign-plain nonce s h = elim (Bool-cases (contains_byte b'~' nonce)) [
  | inl bad ↦ ground (arith, h, bad)
  | inr good ↦
      let given : some nonce ≡ some s = rw good at h in
      let same : nonce ≡ s = cc in subst (λ x. contains_byte b'~' x ≡ false) same good
]

presented_one :
    create_presentation holder_env (codes "J~A~B~C") (codes "B" ∷ []) (some (codes "n"))
    ≡ ok (codes "J~B~n")
unfolding program
presented_one = refl

parse_presentation-create_presentation_example :
    (holder : Str) × (create_holder_verification holder_env (some (codes "n")) ≡ ok holder)
    × AllListed (parse_issuance (codes "J~A~B~C")).disclosures (codes "B" ∷ [])
    × (parse_presentation (codes "J~B~n") ≡ record {
      sdjwt = (parse_issuance (codes "J~A~B~C")).sdjwt;
      disclosures = codes "B" ∷ [];
      holder_verification = holder;
    })
parse_presentation-create_presentation_example =
    parse_presentation-create_presentation holder_env sign-plain (codes "J~A~B~C") (codes "J~B~n")
      (codes "B" ∷ []) (some (codes "n")) presented_one
