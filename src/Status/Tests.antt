-- ===== src/Status/Tests.antt =====
-- Concrete runs of the status packages.
use vc_go.Prelude.{
  ◌≡◌, refl, ◌↔◌, true, false, [], ◌∷◌, some, none, Str, codes, str_eq, if◌then◌else◌,
}
use vc_go.Prelude.Int.{pos}
use vc_go.Prelude.Dicts.{lookup}
use vc_go.Status.Types.{
  ok, err, panic, Value, null, text, other, field, TypedId, Issuer, Contents, missing_field,
  position_invalid, revoked, external,
}
use vc_go.Status.Bitstring.{Codec, test_bit, bit_at, decode}
use vc_go.Status.StatusList.{
  status_list_2021_type, status_list_credential, status_list_index, status_purpose,
  is_missing_field, check_fields, validate_status, get_status_vc_uri, digits, some_digits, negative,
  atoi, get_status_list_index, get_validator,
}
use vc_go.Status.Client.{
  Client, same_issuer, encoded, encoded_list, decode_bits, check_list, verify_status,
}
use vc_go.Status.Bits.{bit_at-at_position}
use vc_go.Status.Verdict.{Evidence, verify_status-ok_iff, verify_status-panic}

program : Unit {0}
unfolding str_eq lookup field test_bit bit_at decode is_missing_field check_fields validate_status
    get_status_vc_uri digits some_digits negative atoi get_status_list_index get_validator
    same_issuer encoded decode_bits check_list verify_status
program = tt

-- Uncompressed lists, one byte per character.
abbrev plain : Codec
plain = record {
  base64_decode = λ s. some s;
  base64_encode = λ s. s;
  gunzip = λ s. some s;
  gzip = λ s. some s;
}

abbrev issuer : Issuer
issuer = record { id = codes "did:example:issuer" }

abbrev url : Str
url = codes "https://example.com/status/1"

-- The list holds the byte 97, which is 0b01100001.
abbrev list_vc : Contents
list_vc = record {
  status = none;
  issuer = some issuer;
  subject = record { id = []; custom_fields = (encoded_list, text (codes "a")) ∷ [] } ∷ [];
}

abbrev client : Client
client = record {
  validator_getter = get_validator;
  resolve = λ uri. if str_eq uri url then ok list_vc else err external;
}

abbrev entry : Value → TypedId
entry index = record {
  id = [];
  type = status_list_2021_type;
  custom_fields =
      (status_list_credential, text url)
      ∷ (status_list_index, index)
      ∷ (status_purpose, text (codes "revocation"))
      ∷ [];
}

abbrev credential : Value → Contents
credential index = record { status = some (entry index); issuer = some issuer; subject = [] }

abbrev not_revoked : Contents
not_revoked = credential (text (codes "1"))

main :
    (verify_status plain client not_revoked ≡ ok tt)
    × (verify_status plain client (credential (text (codes "5"))) ≡ err revoked)
    × (verify_status plain client (credential (text (codes "8"))) ≡ err position_invalid)
    × (verify_status plain client (credential null) ≡ err (missing_field status_list_index))
    × (verify_status plain client (credential other) ≡ panic)
unfolding program
main = (refl, refl, refl, refl, refl)

bit_at-at_position_example : bit_at (codes "a") (pos 6) ≡ ok true
bit_at-at_position_example = bit_at-at_position (codes "a") (pos 6)

verify_status-ok_iff_example :
    (verify_status plain client not_revoked ≡ ok tt) ↔ Evidence plain client not_revoked false
verify_status-ok_iff_example = verify_status-ok_iff plain client not_revoked

verify_status-panic_example : verify_status plain client (credential other) ≡ panic
unfolding program
verify_status-panic_example =
    verify_status-panic plain client (credential other) (entry other) refl refl refl refl
